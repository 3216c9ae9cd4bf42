-- ===== src/App/Persistence/Kept.antt =====
-- The lines of the file over every use of the state.
use mathlib.Core.Path.{subst}
use squeeze2raop.Base.{
  ℕ, suc, ◌≡◌, refl, sym, ap, ◌∙◌, arith, List, [], ◌∷◌, Bool, true, false, Option, none, some,
  if◌then◌else◌, get_elem?, length, ◌==◌,
}
use squeeze2raop.Common.Util.{to_lower}
use squeeze2raop.App.Config.{Outside, ResolvedPlayerConfig}
use squeeze2raop.App.Persistence.{
  Section, Persistence, ensured, find_section, ensure_section, update_at, assigned, assign_mac,
}
use squeeze2raop.App.Persistence.Save.{save_locked}
use squeeze2raop.App.Persistence.Operations.{
  World, save, flush_if_dirty, static_from, static_players, with_creds, save_creds, with_name,
  section_at, save_player_name, settled, resolve_match, adopt_name, registered, match_device,
  resolve,
}
use squeeze2raop.App.Persistence.Lines.{
  ParseState, ParseOutcome, finished, failed, split_lines, assign_all, parse, resolved_all, Opened,
  ready, refused, opened_by, open_text,
}
use squeeze2raop.App.Persistence.Verbatim.{
  Within, unmanaged, kept_lines, save_locked-Within, lines-ensured, Finishes, Finishes-parse,
}

lines-assigned : (o : Option Section) (i : ℕ) (p : Persistence) → (assigned o i p).lines ≡ p.lines
unfolding assigned
lines-assigned none i p = refl
lines-assigned (some s) i p = ground arith

lines-assign_mac : (i : ℕ) (p : Persistence) → (assign_mac i p).lines ≡ p.lines
unfolding assign_mac
lines-assign_mac i p = lines-assigned (get_elem? p.sections i) i p

lines-flush_if_dirty : (b : Bool) (w : World) → (flush_if_dirty b w).store.lines ≡ w.store.lines
unfolding flush_if_dirty save
lines-flush_if_dirty b w = ground arith

lines-static_from :
    (i : ℕ) (ss : List Section) (p : Persistence) → (static_from i ss p).0.lines ≡ p.lines
unfolding static_from
lines-static_from i [] p = refl
lines-static_from i (s ∷ ss) p = ground (
  arith,
  lines-static_from (suc i) ss p,
  lines-static_from (suc i) ss (assign_mac i p),
  lines-assign_mac i p,
)

lines-with_creds :
    (o : Option ℕ) (creds : List ℕ) (b : Bool) (w : World)
    → (with_creds o creds b w).store.lines ≡ w.store.lines
unfolding with_creds save
lines-with_creds none creds b w = refl
lines-with_creds (some i) creds b w = ground arith

lines-with_name :
    (o : Option ℕ) (s : Option Section) (name : List ℕ) (b : Bool) (w : World)
    → (with_name o s name b w).store.lines ≡ w.store.lines
unfolding with_name save
lines-with_name none s name b w = refl
lines-with_name (some i) none name b w = refl
lines-with_name (some i) (some s) name b w = ground arith

lines-settled :
    (i : ℕ) (p : Persistence) (b : Bool) (w : World) → (settled i p b w).0.store.lines ≡ p.lines
unfolding settled
lines-settled i p b w = lines-flush_if_dirty b (record w { store = p })

lines-resolve_match :
    (o : Option ℕ) (id name : List ℕ) (auto b : Bool) (w : World)
    → (resolve_match o id name auto b w).0.store.lines ≡ w.store.lines
unfolding resolve_match ensure_section
lines-resolve_match (some i) id name auto b w =
    let p = assign_mac i w.store in
    lines-settled i (record p { sections = update_at i (adopt_name name) p.sections }) b w
    ∙ lines-assign_mac i w.store
lines-resolve_match none id name false b w = refl
lines-resolve_match none id name true b w =
    let k = if length id == 0 then name else to_lower id in
    let shown = if length name == 0 then k else name in
    let o = find_section k w.store.sections in
    let p = (ensured o k shown true w.store).0 in
    let i = (ensured o k shown true w.store).1 in
    let p' = record p { sections = update_at i (registered (to_lower id) k) p.sections } in
    lines-settled i (assign_mac i p') b w
    ∙ lines-assign_mac i p'
    ∙ lines-ensured o k shown true w.store

-- What the bridge asks of the state, each with the system's answer to a save.
pub data Call : Type 0 where
  static : Bool → Call
  creds : List ℕ → List ℕ → Bool → Call
  rename_to : List ℕ → List ℕ → Bool → Call
  resolved : List ℕ → List ℕ → Bool → Bool → Call

unfoldable pub call : Call → World → World
unfolding static_players save_creds save_player_name resolve
call (static b) w = (static_players b w).0
call (creds k c b) w = save_creds k c b w
call (rename_to k name b) w = save_player_name k name b w
call (resolved id name auto b) w = (resolve id name auto b w).0

unfoldable pub calls : List Call → World → World
unfolding call
calls [] w = w
calls (c ∷ cs) w = calls cs (call c w)

lines-call : (c : Call) (w : World) → (call c w).store.lines ≡ w.store.lines
unfolding call static_players save_creds save_player_name resolve
lines-call (static b) w =
    lines-flush_if_dirty b (record w { store = (static_from 0 w.store.sections w.store).0 })
    ∙ lines-static_from 0 w.store.sections w.store
lines-call (creds k c b) w = lines-with_creds (find_section k w.store.sections) c b w
lines-call (rename_to k name b) w =
    lines-with_name (find_section k w.store.sections)
      (section_at (find_section k w.store.sections) w.store) name b w
lines-call (resolved id name auto b) w =
    lines-resolve_match (match_device id name w.store.sections) id name auto b w

lines-calls : (cs : List Call) (w : World) → (calls cs w).store.lines ≡ w.store.lines
unfolding calls
lines-calls [] w = refl
lines-calls (c ∷ cs) w = lines-calls cs (call c w) ∙ lines-call c w

lines-assign_all :
    (i : ℕ) (ss : List Section) (p : Persistence) → (assign_all i ss p).lines ≡ p.lines
unfolding assign_all
lines-assign_all i [] p = refl
lines-assign_all i (s ∷ ss) p = lines-assign_all (suc i) ss (assign_mac i p) ∙ lines-assign_mac i p

lines-resolved_all :
    (b : Bool) (w : World) (r : ParseState) → (resolved_all b w r).0.store.lines ≡ r.store.lines
unfolding resolved_all
lines-resolved_all b w r =
    lines-flush_if_dirty b (record w { store = assign_all 0 r.store.sections r.store })
    ∙ lines-assign_all 0 r.store.sections r.store

opened_lines :
    (kept : List (List ℕ)) (o : ParseOutcome) (b : Bool) (w w' : World)
    (ps : List ResolvedPlayerConfig)
    → Finishes kept o
    → opened_by b w o ≡ ready (w', ps)
    → unmanaged w'.store.lines ≡ kept
unfolding opened_by
opened_lines kept (failed n m) b w w' ps h e = cc
opened_lines kept (finished r) b w w' ps h e =
    let same : (resolved_all b w r).0 ≡ w' = ap first_world e in
    ap (λ (x : World). unmanaged x.store.lines) (sym same)
    ∙ ap unmanaged (lines-resolved_all b w r)
    ∙ h
  where
    first_world : Opened → World
    first_world (ready x) = x.0
    first_world (refused n m) = w

-- When a file is read without an error, every save after it, whatever was resolved, renamed or stored in
-- between and whether earlier saves succeeded or not, writes all lines of that file whose key is not one
-- of 'mac', 'creds' and 'name': comments, headers, unknown keys and blank lines too, each byte for byte
-- but a carriage return at its end, and in their order.
pub open_text-save_locked :
    (out : Outside) (text : List ℕ) (writable : Bool) (w w' : World)
    (ps : List ResolvedPlayerConfig) (cs : List Call)
    → open_text out text writable w ≡ ready (w', ps)
    → Within (kept_lines (split_lines text)) (save_locked (calls cs w').store)
unfolding open_text
open_text-save_locked out text writable w w' ps cs e =
    let kept : unmanaged w'.store.lines ≡ kept_lines (split_lines text) =
      opened_lines (kept_lines (split_lines text)) (parse out text w.store) writable w w' ps
        (Finishes-parse out text w.store) e in
    subst (λ ls. Within ls (save_locked (calls cs w').store))
      (ap unmanaged (lines-calls cs w') ∙ kept) (save_locked-Within (calls cs w').store)
