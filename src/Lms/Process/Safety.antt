-- ===== src/Lms/Process/Safety.antt =====
-- No packet makes `process` dereference an empty read.
use squeeze2raop.Base.{
  ℕ, ◌+◌, ◌≤◌, List, length, ltb, ◌==◌, Option, none, some, Bool, true, false, Checked, ok, oob,
  IsDefined, arith, Bool-cases, inl, inr, if◌then◌else◌,
}
use squeeze2raop.Lms.Packet.{Reader, Read, ◌>>=◌, pure, field}
use squeeze2raop.Lms.Packet.Cursor.{
  at, Safe, pure-Safe, field-Safe, skip-Safe, take_int-IsDefined, u32_at-IsDefined, field_inside,
}
use squeeze2raop.Lms.Client.{Client}
use squeeze2raop.Lms.Process.{
  on_server_switch, on_cont, on_codc, on_volume, on_aude, Env, fire, start, finish, need, when_some,
  body, read_start, strm_command, strm, cont, read_codc, codc, read_audg, audg, read_aude, aude,
  setd, serv, dispatch, process,
}

need-Safe : {A : Type 0} (n k : ℕ) (m : Read (Option A)) → Safe k m → Safe (n + k) (need n m)
need-Safe {A} n k m rest = skip-Safe n k _ λ b. branch b
  where
    branch : (b : Bool) → Safe k (if b then m else pure none)
    branch true = rest
    branch false = pure-Safe {A = Option A} k none

-- The fields of 'strm s' take 23 bytes.
read_start-Safe : Safe 23 read_start
unfolding read_start
read_start-Safe = field-Safe 1 22 _ λ _. field-Safe 1 21 _ λ _. field-Safe 1 20 _ λ _.
    field-Safe 1 19 _ λ _. field-Safe 1 18 _ λ _. field-Safe 1 17 _ λ _. field-Safe 1 16 _ λ _.
      need-Safe 1 15 _ (
        field-Safe 1 14 _ λ _. field-Safe 1 13 _ λ _. field-Safe 1 12 _ λ _. need-Safe 1 11 _ (
          need-Safe 1 10 _
            (field-Safe 4 6 _ λ _. field-Safe 2 4 _ λ _. field-Safe 4 0 _ λ _. λ p off h. tt)))

read_codc-Safe : Safe 5 read_codc
unfolding read_codc
read_codc-Safe = field-Safe 1 4 _ λ _.
    field-Safe 1 3 _
      λ _. field-Safe 1 2 _ λ _. field-Safe 1 1 _ λ _. field-Safe 1 0 _ λ _. λ p off h. tt

read_audg-Safe : Safe 18 read_audg
unfolding read_audg
read_audg-Safe = need-Safe 8 10 _ (field-Safe 1 9 _ λ adjust. gains adjust)
  where
    gains :
        (adjust : ℕ)
        → Safe {A = Option (ℕ × ℕ)} 9 (
            if adjust == 0
            then pure none
            else need 1 (field 4 >>= λ l. field 4 >>= λ r. pure (some (l, r))))
    gains adjust = elim (Bool-cases (adjust == 0)) [
      | inl fixed ↦ rw fixed (λ p off h. tt)
      | inr moves ↦
          rw moves (need-Safe 1 8 _ (field-Safe 4 4 _ λ _. field-Safe 4 0 _ λ _. λ p off h. tt))
    ]

read_aude-Safe : Safe 2 read_aude
unfolding read_aude
read_aude-Safe = field-Safe 1 1 _ λ _. need-Safe 1 0 _ (λ p off h. tt)

finish-IsDefined : {A : Type 0} (m : Checked (A × Reader)) → IsDefined m → IsDefined (finish m)
finish-IsDefined (ok (a, r)) d = tt
finish-IsDefined oob d = d

when_some-IsDefined :
    {A : Type 0} (f : A → Client → Client) (c : Client) (m : Checked (Option A))
    → IsDefined m
    → IsDefined (when_some f c m)
when_some-IsDefined f c (ok none) d = tt
when_some-IsDefined f c (ok (some a)) d = tt
when_some-IsDefined f c oob d = d

-- A handler that reads `k` bytes behind the opcode is defined on `4 + k` bytes.
reads-IsDefined :
    {A : Type 0} (k : ℕ) (m : Read (Option A)) (f : A → Client → Client) (c : Client) (p : List ℕ)
    → Safe k m
    → 4 + k ≤ length p
    → IsDefined (when_some f c (finish (m (body p))))
reads-IsDefined k m f c p safe h = when_some-IsDefined f c _ (finish-IsDefined _ (safe p 4 h))

strm_command-IsDefined :
    (env : Env) (p : List ℕ) (command : ℕ) (c : Client)
    → IsDefined (strm_command env p command (at p 5) c)
unfolding strm_command
strm_command-IsDefined env p command c = ground (arith, u32_at-IsDefined p 18, reads_start)
  where
    reads_start : 28 ≤ length p → IsDefined (when_some (start env) c (finish (read_start (at p 5))))
    reads_start h = when_some-IsDefined (start env) c _ (finish-IsDefined _ (read_start-Safe p 5 h))

strm-IsDefined : (env : Env) (p : List ℕ) (c : Client) → IsDefined (strm env p c)
unfolding strm
strm-IsDefined env p c = elim (Bool-cases (ltb (length p) 5)) [
  | inl short ↦ rw short tt
  | inr long ↦ rw (long, field_inside 1 p 4 (ground arith)) (strm_command-IsDefined env p _ c)
]

setd-IsDefined : (env : Env) (p : List ℕ) (c : Client) → IsDefined (setd env p c)
unfolding setd
setd-IsDefined env p c = elim (Bool-cases (ltb (length p) 5)) [
  | inl short ↦ rw short tt
  | inr long ↦ rw (long, field_inside 1 p 4 (ground arith)) (ground arith)
]

cont-IsDefined : (env : Env) (p : List ℕ) (c : Client) → 4 ≤ length p → IsDefined (cont env p c)
unfolding cont
cont-IsDefined env p c h =
    when_some-IsDefined (λ m. fire env (on_cont m)) c _
      (finish-IsDefined _ (take_int-IsDefined 4 p 4 h))

codc-IsDefined : (env : Env) (p : List ℕ) (c : Client) → IsDefined (codc env p c)
unfolding codc
codc-IsDefined env p c =
    ground (arith, reads-IsDefined 5 read_codc (λ x. fire env (on_codc x.0 x.1)) c p read_codc-Safe)

audg-IsDefined : (env : Env) (p : List ℕ) (c : Client) → IsDefined (audg env p c)
unfolding audg
audg-IsDefined env p c =
    ground
      (arith, reads-IsDefined 18 read_audg (λ x. fire env (on_volume x.0 x.1)) c p read_audg-Safe)

aude-IsDefined : (env : Env) (p : List ℕ) (c : Client) → IsDefined (aude env p c)
unfolding aude
aude-IsDefined env p c =
    ground (arith, reads-IsDefined 2 read_aude (λ on. fire env (on_aude on)) c p read_aude-Safe)

serv-IsDefined : (env : Env) (p : List ℕ) (c : Client) → 4 ≤ length p → IsDefined (serv env p c)
unfolding serv
serv-IsDefined env p c h = ground (
  arith,
  when_some-IsDefined (λ ip. fire env (on_server_switch ip)) c _
      (finish-IsDefined _ (take_int-IsDefined 4 p 4 h)),
)

-- Whatever the packet, however short, and whatever the handlers do, no field is read past its end:
-- every optional that `process` dereferences is engaged.
pub process-IsDefined : (env : Env) (p : List ℕ) (c : Client) → IsDefined (process env p c)
unfolding process dispatch
process-IsDefined env p c = ground (
  arith,
  strm-IsDefined env p c,
  cont-IsDefined env p c,
  codc-IsDefined env p c,
  audg-IsDefined env p c,
  aude-IsDefined env p c,
  setd-IsDefined env p c,
  serv-IsDefined env p c,
)
