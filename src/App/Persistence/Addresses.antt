-- ===== src/App/Persistence/Addresses.antt =====
-- The addresses of the sections over every use of the state.
use squeeze2raop.Base.{
  ℕ, zero, suc, ◌≡◌, refl, ap, ◌∙◌, arith, List, [], ◌∷◌, ◌++◌, Bool, true, false, Option, none,
  some, if◌then◌else◌, Bool-cases, inl, inr, get_elem?, length, ◌==◌,
}
use squeeze2raop.Common.Util.{to_lower}
use squeeze2raop.App.Persistence.{
  Section, Persistence, ensured, find_section, ensure_section, update_at, set_mac, assigned,
  assign_mac,
}
use squeeze2raop.App.Persistence.Operations.{
  World, save, flush_if_dirty, static_from, static_players, with_creds, save_creds, with_name,
  section_at, save_player_name, settled, resolve_match, adopt_name, registered, match_device,
  resolve, renamed,
}
use squeeze2raop.App.Persistence.Kept.{Call, static, creds, rename_to, resolved, call, calls}

-- The address of the section at a place, once it has one.
unfoldable pub address_at : ℕ → List Section → Option (List ℕ)
address_at i [] = none
address_at zero (s ∷ ss) = if s.has_mac then some s.mac else none
address_at (suc i) (s ∷ ss) = address_at i ss

address_at-update_at :
    (i j : ℕ) (f : Section → Section) (ss : List Section)
    → ((s : Section) → (f s).has_mac ≡ s.has_mac)
    → ((s : Section) → (f s).mac ≡ s.mac)
    → address_at i (update_at j f ss) ≡ address_at i ss
unfolding address_at update_at
address_at-update_at i j f [] h g = refl
address_at-update_at zero zero f (s ∷ ss) h g = rw (h s) (rw (g s) refl)
address_at-update_at zero (suc j) f (s ∷ ss) h g = refl
address_at-update_at (suc i) zero f (s ∷ ss) h g = refl
address_at-update_at (suc i) (suc j) f (s ∷ ss) h g = address_at-update_at i j f ss h g

-- An address is set where there is none.
address_at-set_mac :
    (i j : ℕ) (x m : List ℕ) (s : Section) (ss : List Section)
    → get_elem? ss j ≡ some s
    → s.has_mac ≡ false
    → address_at i ss ≡ some m
    → address_at i (update_at j (set_mac x) ss) ≡ some m
unfolding address_at update_at set_mac
address_at-set_mac i j x m s [] e h a = cc
address_at-set_mac zero zero x m s (t ∷ ss) e h a = ground arith
address_at-set_mac zero (suc j) x m s (t ∷ ss) e h a = a
address_at-set_mac (suc i) zero x m s (t ∷ ss) e h a = a
address_at-set_mac (suc i) (suc j) x m s (t ∷ ss) e h a = address_at-set_mac i j x m s ss e h a

address_at_append :
    (i : ℕ) (m : List ℕ) (ss ts : List Section)
    → address_at i ss ≡ some m
    → address_at i (ss ++ ts) ≡ some m
unfolding address_at
address_at_append i m [] ts a = cc
address_at_append zero m (s ∷ ss) ts a = a
address_at_append (suc i) m (s ∷ ss) ts a = address_at_append i m ss ts a

address_at-assigned :
    (i j : ℕ) (m : List ℕ) (o : Option Section) (p : Persistence)
    → get_elem? p.sections j ≡ o
    → address_at i p.sections ≡ some m
    → address_at i (assigned o j p).sections ≡ some m
unfolding assigned
address_at-assigned i j m none p e a = a
address_at-assigned i j m (some s) p e a = elim (Bool-cases s.has_mac) [
  | inl h ↦ rw h a
  | inr h ↦ rw h (address_at-set_mac i j _ m s p.sections e h a)
]

address_at-assign_mac :
    (i j : ℕ) (m : List ℕ) (p : Persistence)
    → address_at i p.sections ≡ some m
    → address_at i (assign_mac j p).sections ≡ some m
unfolding assign_mac
address_at-assign_mac i j m p a = address_at-assigned i j m (get_elem? p.sections j) p refl a

pub sections-flush_if_dirty :
    (b : Bool) (w : World) → (flush_if_dirty b w).store.sections ≡ w.store.sections
unfolding flush_if_dirty save
sections-flush_if_dirty b w = ground arith

address_at-static_from :
    (i j : ℕ) (m : List ℕ) (ss : List Section) (p : Persistence)
    → address_at i p.sections ≡ some m
    → address_at i (static_from j ss p).0.sections ≡ some m
unfolding static_from
address_at-static_from i j m [] p a = a
address_at-static_from i j m (s ∷ ss) p a = elim (Bool-cases s.auto_registered) [
  | inl h ↦ rw h (address_at-static_from i (suc j) m ss p a)
  | inr h ↦
      rw h
        (address_at-static_from i (suc j) m ss (assign_mac j p) (address_at-assign_mac i j m p a))
]

address_at-save :
    (i : ℕ) (b : Bool) (w : World)
    → address_at i (save b w).store.sections ≡ address_at i w.store.sections
unfolding save
address_at-save i b w = ground arith

address_at-with_creds :
    (i : ℕ) (o : Option ℕ) (c : List ℕ) (b : Bool) (w : World)
    → address_at i (with_creds o c b w).store.sections ≡ address_at i w.store.sections
unfolding with_creds
address_at-with_creds i none c b w = refl
address_at-with_creds i (some j) c b w =
    let f : Section → Section = λ s. record s { creds = c } in
    address_at-save i b
      (record w { store = record w.store { sections = update_at j f w.store.sections } })
    ∙ address_at-update_at i j f w.store.sections (λ s. refl) (λ s. refl)

address_at-with_name :
    (i : ℕ) (o : Option ℕ) (s : Option Section) (name : List ℕ) (b : Bool) (w : World)
    → address_at i (with_name o s name b w).store.sections ≡ address_at i w.store.sections
unfolding with_name renamed
address_at-with_name i none s name b w = refl
address_at-with_name i (some j) none name b w = refl
address_at-with_name i (some j) (some s) name b w =
    let kept =
      address_at-save i b (record w {
        store = record w.store { sections = update_at j (renamed name) w.store.sections };
      })
      ∙ address_at-update_at i j (renamed name) w.store.sections (λ s. refl) (λ s. refl) in
    ground (arith, kept)

address_at-settled :
    (i j : ℕ) (m : List ℕ) (p : Persistence) (b : Bool) (w : World)
    → address_at i p.sections ≡ some m
    → address_at i (settled j p b w).0.store.sections ≡ some m
unfolding settled
address_at-settled i j m p b w a =
    ap (address_at i) (sections-flush_if_dirty b (record w { store = p })) ∙ a

address_at-ensured :
    (i : ℕ) (m : List ℕ) (o : Option ℕ) (k name : List ℕ) (auto : Bool) (p : Persistence)
    → address_at i p.sections ≡ some m
    → address_at i (ensured o k name auto p).0.sections ≡ some m
unfolding ensured
address_at-ensured i m none k name auto p a = address_at_append i m p.sections _ a
address_at-ensured i m (some j) k name auto p a = a

address_at-resolve_match :
    (i : ℕ) (m : List ℕ) (o : Option ℕ) (id name : List ℕ) (auto b : Bool) (w : World)
    → address_at i w.store.sections ≡ some m
    → address_at i (resolve_match o id name auto b w).0.store.sections ≡ some m
unfolding resolve_match ensure_section adopt_name registered
address_at-resolve_match i m (some j) id name auto b w a =
    let p = assign_mac j w.store in
    address_at-settled i j m (record p { sections = update_at j (adopt_name name) p.sections }) b w
      (address_at-update_at i j (adopt_name name) p.sections (λ s. ground arith) (λ s. ground arith)
        ∙ address_at-assign_mac i j m w.store a)
address_at-resolve_match i m none id name false b w a = a
address_at-resolve_match i m none id name true b w a =
    let k = if length id == 0 then name else to_lower id in
    let shown = if length name == 0 then k else name in
    let o = find_section k w.store.sections in
    let p = (ensured o k shown true w.store).0 in
    let j = (ensured o k shown true w.store).1 in
    let f = registered (to_lower id) k in
    let p' = record p { sections = update_at j f p.sections } in
    address_at-settled i j m (assign_mac j p') b w (
      address_at-assign_mac i j m p' (
        address_at-update_at i j f p.sections (λ s. refl) (λ s. refl)
        ∙ address_at-ensured i m o k shown true w.store a))

address_at-call :
    (i : ℕ) (m : List ℕ) (c : Call) (w : World)
    → address_at i w.store.sections ≡ some m
    → address_at i (call c w).store.sections ≡ some m
unfolding call static_players save_creds save_player_name resolve
address_at-call i m (static b) w a =
    ap (address_at i)
      (sections-flush_if_dirty b (record w { store = (static_from 0 w.store.sections w.store).0 }))
    ∙ address_at-static_from i 0 m w.store.sections w.store a
address_at-call i m (creds k c b) w a =
    address_at-with_creds i (find_section k w.store.sections) c b w ∙ a
address_at-call i m (rename_to k name b) w a =
    address_at-with_name i (find_section k w.store.sections)
      (section_at (find_section k w.store.sections) w.store) name b w
    ∙ a
address_at-call i m (resolved id name auto b) w a =
    address_at-resolve_match i m (match_device id name w.store.sections) id name auto b w a

-- A section that has an address keeps it at its place, over any sequence of resolutions, renames,
-- stored credentials and starts of the static players, whether the saves among them succeed or not.
pub address_at-calls :
    (i : ℕ) (m : List ℕ) (cs : List Call) (w : World)
    → address_at i w.store.sections ≡ some m
    → address_at i (calls cs w).store.sections ≡ some m
unfolding calls
address_at-calls i m [] w a = a
address_at-calls i m (c ∷ cs) w a = address_at-calls i m cs (call c w) (address_at-call i m c w a)
