-- ===== src/App/Persistence/Opening.antt =====
-- The addresses that the players have when a file has been opened.
use mathlib.Core.Path.{subst}
use squeeze2raop.Base.{
  ℕ, zero, suc, ◌+◌, ◌≡◌, ◌≤◌, refl, sym, ap, ◌∙◌, arith, List, [], ◌∷◌, Bool, true, Option, none,
  some, Bool-cases, Option-cases, inl, inr, get_elem?, length,
}
use squeeze2raop.App.Config.{Outside, ResolvedPlayerConfig}
use squeeze2raop.App.Persistence.{
  Section, Persistence, update_at, set_mac, assigned, assign_mac, finalize_section,
}
use squeeze2raop.App.Persistence.Operations.{World, finalized}
use squeeze2raop.App.Persistence.Lines.{
  ParseOutcome, finished, failed, assign_all, places, parse, resolved_all, Opened, ready, refused,
  opened_by, open_text,
}
use squeeze2raop.App.Persistence.Kept.{Call, calls}
use squeeze2raop.App.Persistence.Addresses.{address_at, sections-flush_if_dirty, address_at-calls}

length-update_at :
    (j : ℕ) (f : Section → Section) (ss : List Section) → length (update_at j f ss) ≡ length ss
unfolding update_at
length-update_at j f [] = refl
length-update_at zero f (s ∷ ss) = refl
length-update_at (suc j) f (s ∷ ss) = ap suc (length-update_at j f ss)

length-assigned :
    (o : Option Section) (j : ℕ) (p : Persistence)
    → length (assigned o j p).sections ≡ length p.sections
unfolding assigned
length-assigned none j p = refl
length-assigned (some s) j p = elim (Bool-cases s.has_mac) [
  | inl h ↦ rw h refl
  | inr h ↦ rw h (length-update_at j _ p.sections)
]

length-assign_all :
    (j : ℕ) (ss : List Section) (p : Persistence)
    → length (assign_all j ss p).sections ≡ length p.sections
unfolding assign_all assign_mac
length-assign_all j [] p = refl
length-assign_all j (s ∷ ss) p =
    length-assign_all (suc j) ss (assign_mac j p) ∙ length-assigned (get_elem? p.sections j) j p

-- The address field of the section at a place, assigned or not.
mac_at : ℕ → List Section → Option (List ℕ)
mac_at i [] = none
mac_at zero (s ∷ ss) = some s.mac
mac_at (suc i) (s ∷ ss) = mac_at i ss

-- There is no section at the place, or it has an address.
HasAddress : ℕ → List Section → Type 0
HasAddress i ss = address_at i ss ≡ mac_at i ss

HasAddress-set_mac :
    (i j : ℕ) (x : List ℕ) (ss : List Section)
    → HasAddress i ss
    → HasAddress i (update_at j (set_mac x) ss)
unfolding HasAddress address_at mac_at update_at set_mac
HasAddress-set_mac i j x [] h = refl
HasAddress-set_mac zero zero x (s ∷ ss) h = refl
HasAddress-set_mac zero (suc j) x (s ∷ ss) h = h
HasAddress-set_mac (suc i) zero x (s ∷ ss) h = h
HasAddress-set_mac (suc i) (suc j) x (s ∷ ss) h = HasAddress-set_mac i j x ss h

HasAddress-where_set :
    (j : ℕ) (x : List ℕ) (ss : List Section) → HasAddress j (update_at j (set_mac x) ss)
unfolding HasAddress address_at mac_at update_at set_mac
HasAddress-where_set j x [] = refl
HasAddress-where_set zero x (s ∷ ss) = refl
HasAddress-where_set (suc j) x (s ∷ ss) = HasAddress-where_set j x ss

HasAddress-found :
    (j : ℕ) (s : Section) (ss : List Section)
    → get_elem? ss j ≡ some s
    → s.has_mac ≡ true
    → HasAddress j ss
unfolding HasAddress address_at mac_at
HasAddress-found j s [] e h = refl
HasAddress-found zero s (t ∷ ss) e h = ground arith
HasAddress-found (suc j) s (t ∷ ss) e h = HasAddress-found j s ss e h

HasAddress-missing : (j : ℕ) (ss : List Section) → get_elem? ss j ≡ none → HasAddress j ss
unfolding HasAddress address_at mac_at
HasAddress-missing j [] e = refl
HasAddress-missing zero (t ∷ ss) e = cc
HasAddress-missing (suc j) (t ∷ ss) e = HasAddress-missing j ss e

HasAddress-assigned :
    (i j : ℕ) (o : Option Section) (p : Persistence)
    → HasAddress i p.sections
    → HasAddress i (assigned o j p).sections
unfolding assigned
HasAddress-assigned i j none p h = h
HasAddress-assigned i j (some s) p h = elim (Bool-cases s.has_mac) [
  | inl e ↦ rw e h
  | inr e ↦ rw e (HasAddress-set_mac i j _ p.sections h)
]

HasAddress-where_assigned :
    (j : ℕ) (o : Option Section) (p : Persistence)
    → get_elem? p.sections j ≡ o
    → HasAddress j (assigned o j p).sections
unfolding assigned
HasAddress-where_assigned j none p e = HasAddress-missing j p.sections e
HasAddress-where_assigned j (some s) p e = elim (Bool-cases s.has_mac) [
  | inl h ↦ rw h (HasAddress-found j s p.sections e h)
  | inr h ↦ rw h (HasAddress-where_set j _ p.sections)
]

HasAddress-kept :
    (i j : ℕ) (ss : List Section) (p : Persistence)
    → HasAddress i p.sections
    → HasAddress i (assign_all j ss p).sections
unfolding assign_all assign_mac
HasAddress-kept i j [] p h = h
HasAddress-kept i j (s ∷ ss) p h =
    HasAddress-kept i (suc j) ss (assign_mac j p)
      (HasAddress-assigned i j (get_elem? p.sections j) p h)

HasAddress-assign_all :
    (i j : ℕ) (t : Section) (ss : List Section) (p : Persistence)
    → get_elem? ss i ≡ some t
    → HasAddress (j + i) (assign_all j ss p).sections
unfolding assign_all assign_mac
HasAddress-assign_all i j t [] p e = cc
HasAddress-assign_all zero j t (s ∷ ss) p e =
    let place : j + 0 ≡ j = omega arith in
    rw place (
      HasAddress-kept j (suc j) ss (assign_mac j p)
        (HasAddress-where_assigned j (get_elem? p.sections j) p refl))
HasAddress-assign_all (suc i) j t (s ∷ ss) p e =
    let place : j + suc i ≡ suc j + i = omega arith in
    rw place (HasAddress-assign_all i (suc j) t ss (assign_mac j p) e)

mac_at_found :
    (j : ℕ) (t : Section) (ss : List Section) → get_elem? ss j ≡ some t → mac_at j ss ≡ some t.mac
unfolding mac_at
mac_at_found j t [] e = cc
mac_at_found zero t (s ∷ ss) e = ap mac_of e
  where
    mac_of : Option Section → Option (List ℕ)
    mac_of none = none
    mac_of (some s) = some s.mac
mac_at_found (suc j) t (s ∷ ss) e = mac_at_found j t ss e

length_missing : (j : ℕ) (ss : List Section) → get_elem? ss j ≡ none → length ss ≤ j
length_missing j [] e = omega arith
length_missing zero (s ∷ ss) e = cc
length_missing (suc j) (s ∷ ss) e = let shorter = length_missing j ss e in omega arith

finalized_found :
    (j : ℕ) (is : List ℕ) (t : Section) (p : Persistence)
    → get_elem? p.sections j ≡ some t
    → finalized p (j ∷ is) ≡ finalize_section p.defaults t ∷ finalized p is
unfolding finalized
finalized_found j is t p e = rw (finalized, e) refl

mac_of : Option ResolvedPlayerConfig → Option (List ℕ)
mac_of none = none
mac_of (some q) = some q.mac

player_front :
    (j : ℕ) (t : Section) (r : ResolvedPlayerConfig) (p : Persistence)
    → HasAddress (j + 0) p.sections
    → get_elem? p.sections j ≡ some t
    → some (finalize_section p.defaults t) ≡ some r
    → address_at (j + 0) p.sections ≡ some r.mac
unfolding finalize_section HasAddress mac_of
player_front j t r p h f g =
    let place : j + 0 ≡ j = omega arith in
    h ∙ ap (λ k. mac_at k p.sections) place ∙ mac_at_found j t p.sections f ∙ ap mac_of g

is_inside :
    (j n : ℕ) (ss : List Section)
    → length ss ≡ j + suc n
    → (t : Section) × (get_elem? ss j ≡ some t)
is_inside j n ss e = elim (Option-cases (get_elem? ss j)) [
  | inl f ↦ let shorter = length_missing j ss f in absurd (omega arith)
  | inr x ↦ x
]

-- The player at a place and the section at that place have the same address.
player_address :
    (i j : ℕ) (r : ResolvedPlayerConfig) (ss : List Section) (p : Persistence)
    → length p.sections ≡ j + length ss
    → ((k : ℕ) (t : Section) → get_elem? ss k ≡ some t → HasAddress (j + k) p.sections)
    → get_elem? (finalized p (places j ss)) i ≡ some r
    → address_at (j + i) p.sections ≡ some r.mac
unfolding places finalized
player_address i j r [] p n h e = cc
player_address zero j r (s ∷ ss) p n h e =
    let (t, f) = is_inside j (length ss) p.sections n in
    player_front j t r p (h 0 s refl) f
      (ap (λ ps. get_elem? ps 0) (sym (finalized_found j (places (suc j) ss) t p f)) ∙ e)
player_address (suc i) j r (s ∷ ss) p n h e =
    let (t, f) = is_inside j (length ss) p.sections n in
    let place : j + suc i ≡ suc j + i = omega arith in
    ap (λ k. address_at k p.sections) place
    ∙ player_address i (suc j) r ss p (n ∙ omega arith)
        (λ k u q. subst (λ x. HasAddress x p.sections) (omega arith) (h (suc k) u q))
        (ap (λ ps. get_elem? ps (suc i)) (sym (finalized_found j (places (suc j) ss) t p f)) ∙ e)

-- Once a file has been opened, each player that it gave keeps the address it was given: the section
-- at the player's place has this address, over any sequence of resolutions, renames, stored credentials
-- and starts of the static players, whether the saves among them succeed or not.
pub open_text-address_at :
    (out : Outside) (text : List ℕ) (writable : Bool) (w w' : World)
    (ps : List ResolvedPlayerConfig) (cs : List Call) (i : ℕ) (r : ResolvedPlayerConfig)
    → open_text out text writable w ≡ ready (w', ps)
    → get_elem? ps i ≡ some r
    → address_at i (calls cs w').store.sections ≡ some r.mac
unfolding open_text opened_by resolved_all
open_text-address_at out text writable w w' ps cs i r e g =
    address_at-calls i r.mac cs w' (by_outcome (parse out text w.store) e)
  where
    opened : Opened → World × List ResolvedPlayerConfig
    opened (ready x) = x
    opened (refused n m) = (w, [])

    by_outcome :
        (o : ParseOutcome)
        → opened_by writable w o ≡ ready (w', ps)
        → address_at i w'.store.sections ≡ some r.mac
    by_outcome (failed n m) q = cc
    by_outcome (finished s) q =
        let p = assign_all 0 s.store.sections s.store in
        let same_world : (resolved_all writable w s).0 ≡ w' = ap (λ x. (opened x).0) q in
        let same_players : finalized p (places 0 s.store.sections) ≡ ps =
          ap (λ x. (opened x).1) q in
        ap (λ (x : World). address_at i x.store.sections) (sym same_world)
        ∙ ap (address_at i) (sections-flush_if_dirty writable (record w { store = p }))
        ∙ ap (λ k. address_at k p.sections) (omega arith)
        ∙ player_address i 0 r s.store.sections p
            (length-assign_all 0 s.store.sections s.store ∙ omega arith)
            (λ k t u. HasAddress-assign_all k 0 t s.store.sections s.store u)
            (ap (λ x. get_elem? x i) same_players ∙ g)
