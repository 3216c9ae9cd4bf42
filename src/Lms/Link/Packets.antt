-- ===== src/Lms/Link/Packets.antt =====
-- The packets that the read loop hands over are those that the server sent, in their order.
use squeeze2raop.Base.{
  ℕ, ◌+◌, ◌≤◌, ◌≡◌, ◌≢◌, refl, sym, ap, ap₂, ◌∙◌, List, [], ◌∷◌, ◌++◌, length, length-append, take,
  drop, take_self, drop_self, ◌==◌, All, IsByte, arith, Bool-cases, inl, inr,
}
use mathlib.Core.Path.{subst}
use mathlib.Core.List.{append_assoc, append-nil}
use squeeze2raop.Common.ByteOrder.{big, write_int, wire_value}
use squeeze2raop.Common.ByteOrder.RoundTrip.{wire_value-write_int, length-write_int}
use squeeze2raop.Lms.Client.{Client}
use squeeze2raop.Lms.Process.{Env}
use squeeze2raop.Lms.Link.{Link, Event, going, fault, rounds, fresh}
use squeeze2raop.Lms.Link.Stream.{
  encode_packet, encodings, partial, account, IsLink, Keeps, rounds-Keeps,
}

-- The sizes that the loop accepts.
abbrev pub IsPacket : List ℕ → Type 0
IsPacket p = (4 ≤ length p) × (length p ≤ 32768)

length-encode_packet : (p : List ℕ) → length (encode_packet p) ≡ 2 + length p
unfolding encode_packet
length-encode_packet p =
    omega (arith, length-append (write_int big 2 (length p)) p, length-write_int big 2 (length p))

length_prefix :
    (p q xs ys : List ℕ)
    → encode_packet p ++ xs ≡ encode_packet q ++ ys
    → write_int big 2 (length p) ≡ write_int big 2 (length q)
unfolding encode_packet write_int
length_prefix p q xs ys e = ap (take 2) e

-- A length prefix makes packets of the same stream equal.
encode_packet-injective :
    (p q xs ys : List ℕ)
    → IsPacket p
    → IsPacket q
    → encode_packet p ++ xs ≡ encode_packet q ++ ys
    → (p ≡ q) × (xs ≡ ys)
unfolding encode_packet write_int
encode_packet-injective p q xs ys hp hq e = (
  sym (take_self p xs) ∙ ap₂ take same_length bodies ∙ take_self q ys,
  sym (drop_self p xs) ∙ ap₂ drop same_length bodies ∙ drop_self q ys,
)
  where
    same_length : length p ≡ length q
    same_length =
        sym (wire_value-write_int big 2 (length p) (omega arith))
        ∙ ap (wire_value big) (length_prefix p q xs ys e)
        ∙ wire_value-write_int big 2 (length q) (omega arith)

    bodies : p ++ xs ≡ q ++ ys
    bodies = ap (drop 2) e

-- Packets read off the front of an encoded list are its first packets.
front_packets :
    (hs ps : List (List ℕ)) (rest : List ℕ)
    → All IsPacket hs
    → All IsPacket ps
    → encodings hs ++ rest ≡ encodings ps
    → (more : List (List ℕ)) × (ps ≡ hs ++ more) × (rest ≡ encodings more)
unfolding encodings
front_packets [] ps rest hh hp e = (ps, refl, e)
front_packets (h ∷ hs) [] rest hh hp e = absurd (
    omega (
      arith,
      ap length e,
      length-append (encode_packet h ++ encodings hs) rest,
      length-append (encode_packet h) (encodings hs),
      length-encode_packet h,
    ))
front_packets (h ∷ hs) (p ∷ ps) rest hh hp e =
    let (head, tail) =
      encode_packet-injective h p (encodings hs ++ rest) (encodings ps) hh.0 hp.0
        (sym (append_assoc (encode_packet h) (encodings hs) rest) ∙ e) in
    let (more, split, rest_eq) = front_packets hs ps rest hh.1 hp.1 tail in
    (more, ap₂ ◌∷◌ (sym head) split, rest_eq)

fresh-IsLink :
    (stream : List ℕ) (c : Client) (now timeout : ℕ)
    → All IsByte stream
    → IsLink (fresh stream c now timeout)
fresh-IsLink stream c now timeout bytes = record {
  between = λ _. refl;
  inside = λ ne. absurd (ne refl);
  bytes = bytes;
  sizes = tt;
}

account-fresh :
    (stream : List ℕ) (c : Client) (now timeout : ℕ) → account (fresh stream c now timeout) ≡ stream
unfolding account encodings partial
account-fresh stream c now timeout = refl

prefix_of_partial :
    (expect : ℕ) (buf q xs : List ℕ)
    → expect ≤ 32768
    → IsPacket q
    → write_int big 2 expect ++ buf ≡ encode_packet q ++ xs
    → expect ≡ length q
unfolding encode_packet write_int
prefix_of_partial expect buf q xs small hq e =
    sym (wire_value-write_int big 2 expect (omega arith))
    ∙ ap (λ t. wire_value big (take 2 t)) e
    ∙ wire_value-write_int big 2 (length q) (omega arith)

-- When no byte is left to come, no packet is in progress.
no_partial :
    (l : Link) (more : List (List ℕ))
    → IsLink l
    → All IsPacket more
    → partial l.expect l.buf ≡ encodings more
    → more ≡ []
unfolding partial encodings
no_partial l [] v h e = refl
no_partial l (q ∷ more) v h e = elim (Bool-cases (l.expect == 0)) [
  | inl at_prefix ↦ absurd (
      omega (
        arith,
        ap length (rw at_prefix at e),
        length-append (encode_packet q) (encodings more),
        length-encode_packet q,
      ))
  | inr in_packet ↦ absurd (short (ground arith) (rw in_packet at e))
]
  where
    short : l.expect ≢ 0 → write_int big 2 l.expect ++ l.buf ≡ encode_packet q ++ encodings more → ⊥
    short ne e' = omega (
      arith,
      v.inside ne,
      prefix_of_partial l.expect l.buf q (encodings more) (v.inside ne).2 h.0 e',
      ap length e',
      length-append (write_int big 2 l.expect) l.buf,
      length-write_int big 2 l.expect,
      length-append (encode_packet q) (encodings more),
      length-encode_packet q,
    )

All-back {ℓ κ} : {A : Type ℓ} (P : A → Type κ) (xs ys : List A) → All P (xs ++ ys) → All P ys
All-back P [] ys h = h
All-back P (x ∷ xs) ys h = All-back P xs ys h.1

-- From a fresh connection over a stream of packets of 4 to 32768 bytes, whatever the rounds read
-- and however the packets are cut: no round faults, the packets handed to `process` so far are the
-- first packets of the stream in their order, and once no byte is left to come they are all of them.
pub rounds_packets :
    (ps : List (List ℕ)) (es : List (Env × Event)) (c : Client) (now timeout : ℕ)
    → All IsPacket ps
    → All IsByte (encodings ps)
    → (rounds es (fresh (encodings ps) c now timeout) ≢ fault)
      × ((l : Link)
          → rounds es (fresh (encodings ps) c now timeout) ≡ going l
          → ((more : List (List ℕ)) × (ps ≡ l.handled ++ more))
            × (l.incoming ≡ [] → ps ≡ l.handled))
unfolding account
rounds_packets ps es c now timeout sizes bytes = (
  (λ e. subst (Keeps start) e kept),
  λ l e.
      let (v, same) : Keeps start (going l) = subst (Keeps start) e kept in
      let (more, split, rest) =
        front_packets l.handled ps _ v.sizes sizes (same ∙ account-fresh _ c now timeout) in
      (
        (more, split),
        λ drained.
            split
            ∙ ap (◌++◌ l.handled) (
                no_partial l more v
                  (All-back IsPacket l.handled more (subst (All IsPacket) split sizes))
                  (sym (append-nil (partial l.expect l.buf))
                    ∙ ap (◌++◌ (partial l.expect l.buf)) (sym drained)
                    ∙ rest))
            ∙ append-nil l.handled,
      ),
)
  where
    start : Link
    start = fresh (encodings ps) c now timeout

    kept : Keeps start (rounds es start)
    kept = rounds-Keeps es start (fresh-IsLink (encodings ps) c now timeout bytes)
