-- ===== src/App/Persistence/Verbatim.antt =====
-- What a save leaves of the file that was read.
use mathlib.Core.Path.{subst}
use mathlib.Core.List.{append-nil, append_assoc}
use squeeze2raop.Base.{
  ℕ, suc, ◌≡◌, refl, sym, ap, ◌∙◌, arith, List, [], ◌∷◌, ◌++◌, Bool, true, false, not, Option, none,
  some, if◌then◌else◌, Bool-cases, inl, inr, get_elem?,
}
use squeeze2raop.App.Config.{Outside, GlobalConfig}
use squeeze2raop.App.Persistence.{
  Section, Kind, blank, comment, header, other, Line, Persistence, ensured, find_section,
  ensure_section,
}
use squeeze2raop.App.Persistence.Keys.{Parsed, good, bad, ◌>>=◌}
use squeeze2raop.App.Persistence.Parse.{parse_global_key, parse_player_key}
use squeeze2raop.App.Persistence.Save.{
  is_managed, is_managed_line, written_line, written_lines, section_by_name, new_sections,
  behind_header, rewritten, save_locked,
}
use squeeze2raop.App.Persistence.Lines.{
  Shape, nothing, remark, bracket, no_key, keyed, shape_of, strip_cr, split_lines, Current, outside,
  in_global, in_default, unknown, in_player, ParseState, plain_line, key_line, add_line,
  enter_player, enter, read_header, set_section, player_key_at, take_key, default_section,
  parse_section_header, read_shape, read_next, read_lines, ParseOutcome, finished, failed, cleared,
  parse,
}

-- The lines of the first list stand among those of the second, in order.
pub data Within : List (List ℕ) → List (List ℕ) → Type 0 where
  done : Within [] []
  keep : {xs ys : List (List ℕ)} (x : List ℕ) → Within xs ys → Within (x ∷ xs) (x ∷ ys)
  skip : {xs ys : List (List ℕ)} (y : List ℕ) → Within xs ys → Within xs (y ∷ ys)

Within-before : {xs ys : List (List ℕ)} (zs : List (List ℕ)) → Within xs ys → Within xs (zs ++ ys)
Within-before [] h = h
Within-before (z ∷ zs) h = skip z (Within-before zs h)

Within-nil : (zs : List (List ℕ)) → Within [] zs
Within-nil [] = done
Within-nil (z ∷ zs) = skip z (Within-nil zs)

Within-behind : {xs ys : List (List ℕ)} (zs : List (List ℕ)) → Within xs ys → Within xs (ys ++ zs)
Within-behind zs done = Within-nil zs
Within-behind zs (keep x h) = keep x (Within-behind zs h)
Within-behind zs (skip y h) = skip y (Within-behind zs h)

-- The lines that the program does not own.
abbrev pub unmanaged : List Line → List (List ℕ)
unmanaged [] = []
unmanaged (l ∷ ls) = if is_managed_line l then unmanaged ls else l.raw ∷ unmanaged ls

written_lines-Within :
    (ls : List Line) (ss : List Section) (rest : List Line)
    → Within (unmanaged rest) (written_lines ls ss rest)
unfolding written_lines written_line
written_lines-Within ls ss [] = done
written_lines-Within ls ss (l ∷ rest) =
    let h = written_lines-Within ls ss rest in
    elim (Bool-cases (is_managed_line l)) [
      | inl e ↦ rw e (Within-before (rewritten l (section_by_name l.section ss)) h)
      | inr e ↦ rw e (keep l.raw (Within-before (behind_header ls ss l) h))
    ]

pub save_locked-Within : (p : Persistence) → Within (unmanaged p.lines) (save_locked p)
unfolding save_locked
save_locked-Within p =
    Within-behind (new_sections p.lines p.sections)
      (written_lines-Within p.lines p.sections p.lines)

-- The same, read off the text of a line.
abbrev pub kept_shape : Shape → Bool
kept_shape nothing = true
kept_shape remark = true
kept_shape bracket = true
kept_shape no_key = true
kept_shape (keyed k v prefix) = not (is_managed k)

abbrev pub is_kept : List ℕ → Bool
is_kept raw = kept_shape (shape_of raw)

abbrev pub kept_lines : List (List ℕ) → List (List ℕ)
kept_lines [] = []
kept_lines (l ∷ ls) = if is_kept (strip_cr l) then strip_cr l ∷ kept_lines ls else kept_lines ls

unmanaged-append : (ls ms : List Line) → unmanaged (ls ++ ms) ≡ unmanaged ls ++ unmanaged ms
unmanaged-append [] ms = refl
unmanaged-append (l ∷ ls) ms = ground (arith, unmanaged-append ls ms)

pub lines-ensured :
    (o : Option ℕ) (k name : List ℕ) (b : Bool) (p : Persistence)
    → (ensured o k name b p).0.lines ≡ p.lines
unfolding ensured
lines-ensured none k name b p = refl
lines-ensured (some i) k name b p = refl

lines-enter : (name : List ℕ) (r : ParseState) → (enter name r).store.lines ≡ r.store.lines
unfolding enter enter_player ensure_section
lines-enter name r =
    ground (arith, lines-ensured (find_section name r.store.sections) name name false r.store)

-- A line that was read: nothing is lost of those before it, and it is added as it stands.
abbrev Reads : List (List ℕ) → List ℕ → Parsed ParseState → Type 0
Reads before raw (good r) =
    unmanaged r.store.lines ≡ before ++ (if is_kept raw then raw ∷ [] else [])
Reads before raw (bad message) = Unit {0}

-- A value that is taken leaves the lines alone.
abbrev KeepsLines : List Line → Parsed ParseState → Type 0
KeepsLines ls (good r) = r.store.lines ≡ ls
KeepsLines ls (bad message) = Unit {0}

KeepsLines-global :
    (r : ParseState) (g : Parsed GlobalConfig)
    → KeepsLines r.store.lines
        (g >>= (λ g. good (record r { store = record r.store { global = g } })))
KeepsLines-global r (good g) = refl
KeepsLines-global r (bad e) = tt

KeepsLines-default :
    (r : ParseState) (s : Parsed Section)
    → KeepsLines r.store.lines
        (s >>= (λ s. good (record r { store = record r.store { defaults = s.config } })))
KeepsLines-default r (good s) = refl
KeepsLines-default r (bad e) = tt

KeepsLines-section :
    (i : ℕ) (r : ParseState) (s : Parsed Section)
    → KeepsLines r.store.lines (s >>= (λ t. good (set_section i r t)))
unfolding set_section
KeepsLines-section i r (good s) = refl
KeepsLines-section i r (bad e) = tt

KeepsLines-player :
    (out : Outside) (k v : List ℕ) (i : ℕ) (r : ParseState) (o : Option Section)
    → KeepsLines r.store.lines (player_key_at out k v i r o)
unfolding player_key_at
KeepsLines-player out k v i r none = refl
KeepsLines-player out k v i r (some s) = KeepsLines-section i r (parse_player_key out false k v s)

KeepsLines-take_key :
    (out : Outside) (c : Current) (k v : List ℕ) (r : ParseState)
    → KeepsLines r.store.lines (take_key out c k v r)
unfolding take_key
KeepsLines-take_key out outside k v r = refl
KeepsLines-take_key out unknown k v r = refl
KeepsLines-take_key out in_global k v r = KeepsLines-global r (parse_global_key k v r.store.global)
KeepsLines-take_key out in_default k v r =
    KeepsLines-default r (parse_player_key out true k v (default_section r.store.defaults))
KeepsLines-take_key out (in_player i) k v r =
    KeepsLines-player out k v i r (get_elem? r.store.sections i)

unmanaged-add_line :
    (l : Line) (r : ParseState)
    → unmanaged (add_line l r).store.lines
      ≡ unmanaged r.store.lines ++ (if is_managed_line l then [] else l.raw ∷ [])
unfolding add_line
unmanaged-add_line l r = unmanaged-append r.store.lines (l ∷ []) ∙ ground arith

unmanaged-plain :
    (kind : Kind) (raw : List ℕ) (r : ParseState)
    → is_managed_line (plain_line kind raw) ≡ false
    → unmanaged (add_line (plain_line kind raw) r).store.lines
      ≡ unmanaged r.store.lines ++ (raw ∷ [])
unmanaged-plain kind raw r e = unmanaged-add_line (plain_line kind raw) r ∙ ground (arith, e)

unmanaged-header :
    (o : Option (List ℕ)) (raw : List ℕ) (r : ParseState)
    → unmanaged (read_header o raw r).store.lines ≡ unmanaged r.store.lines ++ (raw ∷ [])
unfolding read_header is_managed_line
unmanaged-header none raw r = unmanaged-plain other raw (record r { current = unknown }) refl
unmanaged-header (some name) raw r =
    unmanaged-add_line (record (plain_line header raw) { section = name })
      (enter name (record r { current_name = name }))
    ∙ ap (λ ls. unmanaged ls ++ (raw ∷ [])) (lines-enter name (record r { current_name = name }))

Reads-key :
    (raw k v prefix section : List ℕ) (r : ParseState) (p : Parsed ParseState)
    → shape_of raw ≡ keyed k v prefix
    → KeepsLines r.store.lines p
    → Reads
        (unmanaged r.store.lines)
        raw
        (p >>= (λ q. good (add_line (key_line raw section k v prefix) q)))
unfolding is_managed_line
Reads-key raw k v prefix section r (bad e) shape h = tt
Reads-key raw k v prefix section r (good q) shape h =
    unmanaged-add_line (key_line raw section k v prefix) q
    ∙ ap (λ ls. unmanaged ls ++ (if is_managed k then [] else raw ∷ [])) h
    ∙ ground (arith, ap kept_shape shape)

Reads-read_shape :
    (out : Outside) (sh : Shape) (raw : List ℕ) (r : ParseState)
    → shape_of raw ≡ sh
    → Reads (unmanaged r.store.lines) raw (read_shape out sh raw r)
unfolding read_shape is_managed_line
Reads-read_shape out nothing raw r e =
    unmanaged-plain blank raw r refl ∙ ground (arith, ap kept_shape e)
Reads-read_shape out remark raw r e =
    unmanaged-plain comment raw r refl ∙ ground (arith, ap kept_shape e)
Reads-read_shape out bracket raw r e =
    unmanaged-header (parse_section_header raw) raw r ∙ ground (arith, ap kept_shape e)
Reads-read_shape out no_key raw r e =
    unmanaged-plain other raw r refl ∙ ground (arith, ap kept_shape e)
Reads-read_shape out (keyed k v prefix) raw r e =
    Reads-key raw k v prefix r.current_name r (take_key out r.current k v r) e
      (KeepsLines-take_key out r.current k v r)

-- What a finished reading holds.
abbrev pub Finishes : List (List ℕ) → ParseOutcome → Type 0
Finishes kept (finished r) = unmanaged r.store.lines ≡ kept
Finishes kept (failed n message) = Unit {0}

Finishes-read_next :
    (n : ℕ) (raw : List ℕ) (before later : List (List ℕ)) (next : ParseState → ParseOutcome)
    (p : Parsed ParseState)
    → Reads before raw p
    → ((r : ParseState) → Finishes (unmanaged r.store.lines ++ later) (next r))
    → Finishes (before ++ ((if is_kept raw then raw ∷ [] else []) ++ later)) (read_next n next p)
unfolding read_next
Finishes-read_next n raw before later next (bad e) h k = tt
Finishes-read_next n raw before later next (good r) h k =
    subst (λ kept. Finishes kept (next r))
      (ap (λ ls. ls ++ later) h ∙ append_assoc before (if is_kept raw then raw ∷ [] else []) later)
      (k r)

Finishes-read_lines :
    (out : Outside) (n : ℕ) (ls : List (List ℕ)) (r : ParseState)
    → Finishes (unmanaged r.store.lines ++ kept_lines ls) (read_lines out n ls r)
unfolding read_lines
Finishes-read_lines out n [] r = sym (append-nil (unmanaged r.store.lines))
Finishes-read_lines out n (l ∷ ls) r =
    let raw = strip_cr l in
    let step =
      Finishes-read_next n raw (unmanaged r.store.lines) (kept_lines ls) (read_lines out (suc n) ls)
        (read_shape out (shape_of raw) raw r) (Reads-read_shape out (shape_of raw) raw r refl)
        (Finishes-read_lines out (suc n) ls) in
    subst
      (λ kept.
        Finishes (unmanaged r.store.lines ++ kept)
          (read_next n (read_lines out (suc n) ls) (read_shape out (shape_of raw) raw r)))
      (joined (is_kept raw) raw (kept_lines ls)) step
  where
    joined :
        (b : Bool) (raw : List ℕ) (later : List (List ℕ))
        → (if b then raw ∷ [] else []) ++ later ≡ (if b then raw ∷ later else later)
    joined true raw later = refl
    joined false raw later = refl

pub Finishes-parse :
    (out : Outside) (text : List ℕ) (p : Persistence)
    → Finishes (kept_lines (split_lines text)) (parse out text p)
unfolding parse
Finishes-parse out text p = Finishes-read_lines out 1 (split_lines text) (cleared p)
