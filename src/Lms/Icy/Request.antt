-- ===== src/Lms/Icy/Request.antt =====
-- The request that asks for metadata.
use mathlib.Core.List.{append_assoc}
use squeeze2raop.Base.{
  ℕ, ◌+◌, ◌≡◌, refl, sym, ap, ◌∙◌, arith, List, [], ◌∷◌, ◌++◌, Option, none, some, length, take,
  drop, codes, find_text, find_text-FirstAt, find_text-some, FirstAt, inl, inr, Bool-cases,
}
use squeeze2raop.Lms.Icy.{
  with_icy_request_header, with_header, insert_header, icy_header, crlf, ends_crlf,
}

abbrev pub icy_name : List ℕ
icy_name = codes "Icy-MetaData"

-- A text with the header in it has the header's name somewhere.
holds_header :
    (before after : List ℕ)
    → (i : ℕ) × (find_text icy_name (before ++ (icy_header ++ after)) ≡ some i)
holds_header before after = find_text-some icy_name before (codes ": 1" ++ (crlf ++ after))

named_after :
    (o : Option ℕ) (request : List ℕ)
    → (i : ℕ) × (find_text icy_name (insert_header o request) ≡ some i)
unfolding insert_header
named_after (some end) request = holds_header (take (end + 2) request) (drop (end + 2) request)
named_after none request = elim (Bool-cases (ends_crlf request)) [
  | inl e ↦ rw e (find_text-some icy_name request (codes ": 1" ++ crlf))
  | inr e ↦ rw e (
      let (i, f) = find_text-some icy_name (request ++ crlf) (codes ": 1" ++ crlf) in
      (i, ap (find_text icy_name) (sym (append_assoc request crlf icy_header)) ∙ f))
]

named_with :
    (o : Option ℕ) (request : List ℕ)
    → find_text icy_name request ≡ o
    → (i : ℕ) × (find_text icy_name (with_header o request) ≡ some i)
unfolding with_header
named_with (some i) request e = (i, e)
named_with none request e = named_after (find_text (crlf ++ crlf) request) request

with_header-some :
    (o : Option ℕ) (request : List ℕ) (i : ℕ) → o ≡ some i → with_header o request ≡ request
unfolding with_header
with_header-some none request i e = cc
with_header-some (some j) request i e = refl

drop_two : (head rest : List ℕ) → drop (length head + 2) (head ++ (crlf ++ rest)) ≡ rest
drop_two [] rest = refl
drop_two (c ∷ head) rest = ground (arith, drop_two head rest)

take_two : (head rest : List ℕ) → take (length head + 2) (head ++ (crlf ++ rest)) ≡ head ++ crlf
take_two [] rest = refl
take_two (c ∷ head) rest = ground (arith, take_two head rest)

abbrev blank_at : List ℕ → List ℕ → List ℕ
blank_at head body = head ++ (crlf ++ (crlf ++ body))

-- A request without the header whose first blank line stands behind `head` gets the header as the last
-- line of its header block, before the blank line, and keeps its body. To ask again, of this request or
-- any other, changes nothing.
pub with_icy_request_header-insert :
    (head body request : List ℕ)
    → find_text icy_name (head ++ (crlf ++ (crlf ++ body))) ≡ none
    → FirstAt (crlf ++ crlf) (length head) (head ++ (crlf ++ (crlf ++ body)))
    → (with_icy_request_header (head ++ (crlf ++ (crlf ++ body)))
        ≡ head ++ (crlf ++ (icy_header ++ (crlf ++ body))))
      × (with_icy_request_header (with_icy_request_header request)
          ≡ with_icy_request_header request)
unfolding with_icy_request_header with_header insert_header
with_icy_request_header-insert head body request absent first = (
  ap (λ o. with_header o (blank_at head body)) absent
      ∙ ap (λ o. insert_header o (blank_at head body))
          (find_text-FirstAt (crlf ++ crlf) (length head) (blank_at head body) first)
      ∙ ap (λ x. x ++ (icy_header ++ drop (length head + 2) (blank_at head body)))
          (take_two head (crlf ++ body))
      ∙ ap (λ x. (head ++ crlf) ++ (icy_header ++ x)) (drop_two head (crlf ++ body))
      ∙ append_assoc head crlf (icy_header ++ (crlf ++ body)),
  let (i, e) = named_with (find_text icy_name request) request refl in
      with_header-some (find_text icy_name (with_header (find_text icy_name request) request))
        (with_header (find_text icy_name request) request) i e,
)
