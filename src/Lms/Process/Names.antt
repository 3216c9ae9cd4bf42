-- ===== src/Lms/Process/Names.antt =====
-- The 'setd' packets: the server renames the player or asks for its name.
use squeeze2raop.Base.{
  ℕ, ◌≡◌, ◌≢◌, refl, ap, ◌∙◌, List, [], ◌∷◌, ◌++◌, replicate, some, ok, arith, inl, inr, zero, suc,
  Option-cases,
}
use squeeze2raop.Lms.Packet.Cursor.{field_byte}
use squeeze2raop.Lms.Op
use squeeze2raop.Lms.Client.{frame, Client, send_setd_name, send_packet}
use squeeze2raop.Lms.Process.{
  Env, on_set_name, fire, strip_nuls, default_name, rename, setd, dispatch, process,
}

-- Only NULs at the end are dropped.
strip_nuls-replicate : (k : ℕ) → strip_nuls (replicate k 0) ≡ []
unfolding strip_nuls
strip_nuls-replicate zero = refl
strip_nuls-replicate (suc k) = rw (strip_nuls-replicate k, strip_nuls)

pub strip_nuls_padded :
    (xs : List ℕ) (x k : ℕ) → x ≢ 0 → strip_nuls (xs ++ (x ∷ replicate k 0)) ≡ xs ++ (x ∷ [])
unfolding strip_nuls
strip_nuls_padded [] x k ne = ground (arith, strip_nuls-replicate k)
strip_nuls_padded (y ∷ []) x k ne = rw (strip_nuls_padded [] x k ne, strip_nuls)
strip_nuls_padded (y ∷ z ∷ xs) x k ne = rw (strip_nuls_padded (z ∷ xs) x k ne, strip_nuls)

-- The server's packet that names the player, and the one that asks.
abbrev pub setd_packet : List ℕ → List ℕ
setd_packet name = b's' ∷ b'e' ∷ b't' ∷ b'd' ∷ 0 ∷ name

process-setd_name :
    (env : Env) (b : ℕ) (name : List ℕ) (c : Client)
    → process env (setd_packet (b ∷ name)) c ≡ ok (rename env (strip_nuls (b ∷ name)) c)
unfolding process dispatch setd
process-setd_name env b name c = rw (field_byte (setd_packet (b ∷ name)) 4 0 refl) (ground arith)

process-setd_query :
    (env : Env) (c : Client)
    → process env (setd_packet []) c ≡ ok (send_setd_name (default_name c.player_name) c)
unfolding process dispatch setd
process-setd_query env c = rw (field_byte (setd_packet []) 4 0 refl)

-- The handler of a new name, if there is one, leaves the client's own copy of it.
abbrev pub KeepsName : Env → List ℕ → Type 0
KeepsName env name =
    (f : Client → Client) (d : Client)
    → env.handle (on_set_name name) ≡ some f
    → (f d).player_name ≡ d.player_name

rename-player_name :
    (env : Env) (name : List ℕ) (c : Client)
    → KeepsName env name
    → (rename env name c).player_name ≡ name
unfolding rename fire send_setd_name send_packet
rename-player_name env name c keeps = elim (Option-cases (env.handle (on_set_name name))) [
  | inl unset ↦ rw (unset, fire)
  | inr (f, set) ↦ rw (set, fire) (keeps f (record c { player_name = name }) set)
]

default_name-append : (xs : List ℕ) (x : ℕ) → default_name (xs ++ (x ∷ [])) ≡ xs ++ (x ∷ [])
unfolding default_name
default_name-append [] x = refl
default_name-append (y ∷ xs) x = refl

-- The answer: a setd packet with the name between two NULs.
abbrev pub answer : List ℕ → Client → Client
answer name c = record c { wire = c.wire ++ (frame Op.setd (0 ∷ (name ++ (0 ∷ []))) ∷ []) }

-- A name that does not end in NUL, sent with any number of NULs behind it: without them it is stored
-- and handed to the session, and the setd packet with it is sent to the server as the answer. A later
-- query is answered with the same packet.
pub setd_round_trip :
    (env : Env) (xs : List ℕ) (x k : ℕ) (c : Client)
    → x ≢ 0
    → KeepsName env (xs ++ (x ∷ []))
    → let name = xs ++ (x ∷ []) in
      let renamed = answer name (fire env (on_set_name name) (record c { player_name = name })) in
      (process env (setd_packet (xs ++ (x ∷ replicate k 0))) c ≡ ok renamed)
      × (renamed.player_name ≡ xs ++ (x ∷ []))
      × (process env (setd_packet []) renamed ≡ ok (answer (xs ++ (x ∷ [])) renamed))
unfolding rename send_setd_name send_packet
setd_round_trip env xs x k c ne keeps = (
  stored xs ∙ ap (λ n. ok (rename env n c)) (strip_nuls_padded xs x k ne),
  kept,
  process-setd_query env _
      ∙ ap (λ n. ok (send_setd_name n (rename env (xs ++ (x ∷ [])) c)))
          (ap default_name kept ∙ default_name-append xs x),
)
  where
    kept : (rename env (xs ++ (x ∷ [])) c).player_name ≡ xs ++ (x ∷ [])
    kept = rename-player_name env (xs ++ (x ∷ [])) c keeps

    stored :
        (ys : List ℕ)
        → process env (setd_packet (ys ++ (x ∷ replicate k 0))) c
          ≡ ok (rename env (strip_nuls (ys ++ (x ∷ replicate k 0))) c)
    stored [] = process-setd_name env x (replicate k 0) c
    stored (y ∷ ys) = process-setd_name env y (ys ++ (x ∷ replicate k 0)) c
