-- ===== src/Lms/Link/Stream.antt =====
-- The read loop cuts the byte stream into packets: whatever the sizes of the reads, no byte is lost,
-- repeated or moved to another packet.
use squeeze2raop.Base.{
  ℕ, zero, suc, ◌-◌, ◌≤◌, ◌<◌, ◌≡◌, ◌≢◌, refl, sym, ap, ap₂, ◌∙◌, List, [], ◌∷◌, ◌++◌, length,
  length-append, length-take, take, drop, take-append-drop, min, ltb, ◌==◌, ==_iff, ◌||◌,
  if◌then◌else◌, false, Checked, ok, oob, IsDefined, All, IsByte, arith, Bool-cases, inl, inr,
}
use mathlib.Core.Path.{subst}
use mathlib.Core.List.{append_assoc, append-nil}
use squeeze2raop.Common.ByteOrder.{big, write_int, wire_value}
use squeeze2raop.Lms.Client.{Client}
use squeeze2raop.Lms.Process.{Env}
use squeeze2raop.Lms.Process.Safety.{process-IsDefined}
use squeeze2raop.Lms.Link.{
  Link, Event, Outcome, going, lost, fault, on_idle, on_prefix, on_packet, on_chunk, round, rounds,
  is_silent, maybe_heartbeat, interrupted, poll_failed, idle, readable, again,
}

-- A server packet on the wire: a big-endian length of two bytes and the packet.
unfoldable pub encode_packet : List ℕ → List ℕ
encode_packet p = write_int big 2 (length p) ++ p

unfoldable pub encodings : List (List ℕ) → List ℕ
encodings [] = []
encodings (p ∷ ps) = encode_packet p ++ encodings ps

encodings-append_one :
    (ps : List (List ℕ)) (p : List ℕ) → encodings (ps ++ (p ∷ [])) ≡ encodings ps ++ encode_packet p
unfolding encodings
encodings-append_one [] p = append-nil (encode_packet p)
encodings-append_one (q ∷ ps) p =
    ap (◌++◌ (encode_packet q)) (encodings-append_one ps p)
    ∙ sym (append_assoc (encode_packet q) (encodings ps) (encode_packet p))

-- What the loop holds of the packet that it is reading.
unfoldable pub partial : ℕ → List ℕ → List ℕ
partial expect buf = if expect == 0 then [] else write_int big 2 expect ++ buf

-- The stream as the link accounts for it: packets handled, packet in progress, bytes to come.
unfoldable pub account : Link → List ℕ
account l = encodings l.handled ++ (partial l.expect l.buf ++ l.incoming)

pub record IsLink (l : Link) : Type 0 where
  pub between : l.expect ≡ 0 → l.buf ≡ []
  pub inside : l.expect ≢ 0 → (length l.buf < l.expect) × (4 ≤ l.expect) × (l.expect ≤ 32768)
  pub bytes : All IsByte l.incoming
  pub sizes : All (λ p. (4 ≤ length p) × (length p ≤ 32768)) l.handled

two_bytes :
    (a b : ℕ) → IsByte a → IsByte b → write_int big 2 (wire_value big (a ∷ b ∷ [])) ≡ a ∷ b ∷ []
unfolding write_int wire_value
two_bytes a b ha hb = ap₂ (λ x y. x ∷ y ∷ []) (omega arith) (omega arith)

All-append {ℓ κ} :
    {A : Type ℓ} (P : A → Type κ) (xs ys : List A) → All P xs → All P ys → All P (xs ++ ys)
All-append P [] ys hx hy = hy
All-append P (x ∷ xs) ys hx hy = (hx.0, All-append P xs ys hx.1 hy)

All-drop {ℓ κ} : {A : Type ℓ} (P : A → Type κ) (n : ℕ) (xs : List A) → All P xs → All P (drop n xs)
All-drop P zero xs h = h
All-drop P (suc n) [] h = tt
All-drop P (suc n) (x ∷ xs) h = All-drop P n xs h.1

-- The outcome keeps the account: a link that goes on, or that is given up, has lost no byte.
abbrev pub Keeps : Link → Outcome → Type 0
Keeps l (going l') = IsLink l' × (account l' ≡ account l)
Keeps l (lost l') = Unit {0}
Keeps l fault = ⊥

partial_inside :
    (expect : ℕ) (buf : List ℕ) → expect ≢ 0 → partial expect buf ≡ write_int big 2 expect ++ buf
unfolding partial
partial_inside expect buf ne = ground arith

account_between : (l : Link) → l.expect ≡ 0 → account l ≡ encodings l.handled ++ l.incoming
unfolding account partial
account_between l e = rw e

account_inside :
    (l : Link)
    → l.expect ≢ 0
    → account l ≡ encodings l.handled ++ ((write_int big 2 l.expect ++ l.buf) ++ l.incoming)
unfolding account
account_inside l ne =
    ap (λ t. encodings l.handled ++ (t ++ l.incoming)) (partial_inside l.expect l.buf ne)

on_prefix-Keeps :
    (incoming : List ℕ) (l : Link)
    → IsLink l
    → l.expect ≡ 0
    → l.incoming ≡ incoming
    → Keeps l (on_prefix incoming l)
unfolding on_prefix
on_prefix-Keeps [] l v e s = tt
on_prefix-Keeps (a ∷ []) l v e s = tt
on_prefix-Keeps (a ∷ b ∷ rest) l v e s =
    elim (Bool-cases
      (ltb 32768 (wire_value big (a ∷ b ∷ [])) || ltb (wire_value big (a ∷ b ∷ [])) 4)) [
        | inl bogus ↦ rw bogus tt
        | inr fits ↦ rw fits (next fits, same fits)
      ]
  where
    size : ℕ
    size = wire_value big (a ∷ b ∷ [])

    known : All IsByte (a ∷ b ∷ rest)
    known = subst (All IsByte) s v.bytes

    head : Link
    head = record l { incoming = rest; expect = size; buf = [] }

    next : (ltb 32768 size || ltb size 4) ≡ false → IsLink head
    next fits = record {
      between = λ z. refl;
      inside = λ ne. (ground arith, ground arith, ground arith);
      bytes = known.1.1;
      sizes = v.sizes;
    }

    same : (ltb 32768 size || ltb size 4) ≡ false → account head ≡ account l
    same fits =
        account_inside head (ground arith)
        ∙ ap (λ t. encodings l.handled ++ ((t ++ []) ++ rest)) (two_bytes a b known.0 known.1.0)
        ∙ ap (◌++◌ (encodings l.handled)) (sym s)
        ∙ sym (account_between l e)

process_ok : (m : Checked Client) → IsDefined m → (c : Client) × (m ≡ ok c)
process_ok (ok c) d = (c, refl)
process_ok oob d = absurd d

-- The packet in progress, with what one more read brought.
module _ (env : Env) (m : ℕ) (l : Link) (v : IsLink l) (ne : l.expect ≢ 0)
    (some_left : m ≤ l.expect - length l.buf) where
  grown : Link
  grown = record l { incoming = drop m l.incoming; buf = l.buf ++ take m l.incoming }

  regrouped :
      account l
      ≡ encodings l.handled
        ++ ((write_int big 2 l.expect ++ (l.buf ++ take m l.incoming)) ++ drop m l.incoming)
  regrouped =
      account_inside l ne
      ∙ ap (λ t. encodings l.handled ++ ((write_int big 2 l.expect ++ l.buf) ++ t))
          (sym (take-append-drop m l.incoming))
      ∙ simp append_assoc

  grown-Keeps : (length grown.buf == l.expect) ≡ false → Keeps l (going grown)
  unfolding grown
  grown-Keeps partly = (
    record {
      between = λ e. absurd (ne e);
      inside = λ _. (
        ground
            (arith, length-append l.buf (take m l.incoming), length-take m l.incoming, v.inside ne),
        (v.inside ne).1,
        (v.inside ne).2,
      );
      bytes = All-drop IsByte m l.incoming v.bytes;
      sizes = v.sizes;
    },
    account_inside grown ne ∙ sym regrouped,
  )

  on_packet-Keeps : length grown.buf ≡ l.expect → Keeps l (on_packet env grown)
  unfolding grown on_packet encode_packet account partial
  on_packet-Keeps whole =
      let (c, e) = process_ok _ (process-IsDefined env grown.buf l.client) in
      rw (e, on_packet)
        (
          record {
            between = λ _. refl;
            inside = λ n. absurd (n refl);
            bytes = All-drop IsByte m l.incoming v.bytes;
            sizes =
                All-append _ l.handled (grown.buf ∷ []) v.sizes
                  ((rw whole (v.inside ne).1, rw whole (v.inside ne).2), tt);
          },
          ap (λ t. t ++ drop m l.incoming)
                (encodings-append_one l.handled grown.buf ∙ ap (◌++◌ (encodings l.handled)) packet)
              ∙ append_assoc (encodings l.handled)
                  (write_int big 2 l.expect ++ (l.buf ++ take m l.incoming)) (drop m l.incoming)
              ∙ sym regrouped,
        )
    where
      packet :
          encode_packet (l.buf ++ take m l.incoming)
          ≡ write_int big 2 l.expect ++ (l.buf ++ take m l.incoming)
      packet = ap (λ k. write_int big 2 k ++ (l.buf ++ take m l.incoming)) whole

on_chunk-Keeps :
    (env : Env) (n : ℕ) (l : Link) → IsLink l → l.expect ≢ 0 → Keeps l (on_chunk env n l)
unfolding on_chunk grown
on_chunk-Keeps env n l v ne = elim (Bool-cases (length (take m l.incoming) == 0)) [
  | inl none_left ↦ rw none_left tt
  | inr some_read ↦
      rw some_read (elim (Bool-cases (length (l.buf ++ take m l.incoming) == l.expect)) [
        | inl whole ↦ rw whole (on_packet-Keeps env m l v ne small ((==_iff _ _).0 whole))
        | inr partly ↦ rw partly (grown-Keeps env m l v ne small partly)
      ])
]
  where
    m : ℕ
    m = min (min 2048 (l.expect - length l.buf)) n

    small : m ≤ l.expect - length l.buf
    small = omega arith

-- One round of the loop, whatever it reads, keeps the account of the stream and never faults.
round-Keeps : (env : Env) (e : Event) (l : Link) → IsLink l → Keeps l (round env e l)
unfolding round on_idle account
round-Keeps env interrupted l v = (v, refl)
round-Keeps env poll_failed l v = tt
round-Keeps env idle l v =
    elim (Bool-cases (is_silent env (record l { client = maybe_heartbeat env l.client }))) [
      | inl silent ↦ rw silent tt
      | inr heard ↦ rw heard (
        record { between = v.between; inside = v.inside; bytes = v.bytes; sizes = v.sizes },
        refl,
      )
    ]
round-Keeps env (readable n) l v = elim (Bool-cases (l.expect == 0)) [
  | inl at_prefix ↦ rw at_prefix (on_prefix-Keeps l.incoming l v ((==_iff _ _).0 at_prefix) refl)
  | inr in_packet ↦ rw in_packet (on_chunk-Keeps env n l v (ground arith))
]
round-Keeps env again l v = elim (Bool-cases (l.expect == 0)) [
  | inl at_prefix ↦ rw at_prefix tt
  | inr in_packet ↦ rw in_packet (v, refl)
]

Keeps-trans : (l m : Link) (o : Outcome) → account m ≡ account l → Keeps m o → Keeps l o
Keeps-trans l m (going n) same (v, e) = (v, e ∙ same)
Keeps-trans l m (lost n) same k = tt
Keeps-trans l m fault same k = k

after_round :
    (es : List (Env × Event)) (l : Link) (o : Outcome)
    → ((m : Link) → IsLink m → Keeps m (rounds es m))
    → Keeps l o
    → Keeps l (elim o [ going m ↦ rounds es m | lost m ↦ lost m | fault ↦ fault ])
after_round es l (going m) later (v, same) = Keeps-trans l m _ same (later m v)
after_round es l (lost m) later k = tt
after_round es l fault later k = k

pub rounds-Keeps : (es : List (Env × Event)) (l : Link) → IsLink l → Keeps l (rounds es l)
unfolding rounds
rounds-Keeps [] l v = (v, refl)
rounds-Keeps ((env, e) ∷ es) l v =
    after_round es l (round env e l) (λ m w. rounds-Keeps es m w) (round-Keeps env e l v)
