-- ===== src/EspOld/Quiet.antt =====
-- What most functions of the old sketch leave alone: the access point, and the sizes of the arrays.
use respir_mesh.EspOld.State.{Call, EspOld, and_then, calling}
use mathlib.Core.Path.{subst}
use respir_mesh.Base.{
  ℕ, zero, suc, ◌+◌, List, [], ◌∷◌, ◌++◌, Option, none, some, Bool, true, false, if◌then◌else◌, ◌≡◌,
  refl, ◌∙◌, arith, length, inl, inr, Bool-cases, for_u8, ltb, u8,
}

abbrev pub is_soft_ap : Call → Bool
is_soft_ap (Call.soft_ap host pass channel) = true
is_soft_ap _ = false

-- How often the access point has been started.
abbrev pub soft_aps : List Call → ℕ
soft_aps [] = 0
soft_aps (c ∷ cs) = if is_soft_ap c then suc (soft_aps cs) else soft_aps cs

pub soft_aps-append : (xs ys : List Call) → soft_aps (xs ++ ys) ≡ soft_aps xs + soft_aps ys
soft_aps-append [] ys = omega arith
soft_aps-append (x ∷ xs) ys = elim (Bool-cases (is_soft_ap x)) [
  | inl starts ↦ rw starts (omega (arith, soft_aps-append xs ys))
  | inr other ↦ rw other (soft_aps-append xs ys)
]

pub record Quiet (s t : EspOld) : Type 0 where
  pub crated : t.access_point_crated ≡ s.access_point_crated
  pub need : t.need_to_create_access_point ≡ s.need_to_create_access_point
  pub started : soft_aps t.calls ≡ soft_aps s.calls
  pub buffer : length t.pb_buffer ≡ length s.pb_buffer
  pub slots : length t.ch_clients ≡ length s.ch_clients

pub Quiet-refl : (s : EspOld) → Quiet s s
Quiet-refl s = record { crated = refl; need = refl; started = refl; buffer = refl; slots = refl }

pub Quiet-trans : {s t u : EspOld} → Quiet s t → Quiet t u → Quiet s u
Quiet-trans q r = record {
  crated = r.crated ∙ q.crated;
  need = r.need ∙ q.need;
  started = r.started ∙ q.started;
  buffer = r.buffer ∙ q.buffer;
  slots = r.slots ∙ q.slots;
}

pub calling-Quiet : (cs : List Call) (s : EspOld) → soft_aps cs ≡ 0 → Quiet s (calling cs s)
calling-Quiet cs s no_ap = record {
  crated = refl;
  need = refl;
  started = soft_aps-append s.calls cs ∙ omega (arith, no_ap);
  buffer = refl;
  slots = refl;
}

-- A choice between two quiet ways is quiet.
pub if-Quiet : (b : Bool) (s t u : EspOld) → Quiet s t → Quiet s u → Quiet s (if b then t else u)
if-Quiet true s t u q r = q
if-Quiet false s t u q r = r

-- What holds of the result of a step, if it returns.
abbrev pub Ends : (EspOld → Type 0) → Option EspOld → Type 0
Ends Q none = Unit {0}
Ends Q (some t) = Q t

pub Ends-ran : (Q : EspOld → Type 0) (o : Option EspOld) (t : EspOld) → Ends Q o → o ≡ some t → Q t
Ends-ran Q o t h e = subst (Ends Q) e h

pub and_then-Ends :
    (P Q : EspOld → Type 0) (o : Option EspOld) (f : EspOld → Option EspOld)
    → Ends P o
    → ((s : EspOld) → P s → Ends Q (f s))
    → Ends Q (and_then o f)
and_then-Ends P Q none f h next = tt
and_then-Ends P Q (some s) f h next = next s h

pub if-Ends :
    (Q : EspOld → Type 0) (b : Bool) (o p : Option EspOld)
    → Ends Q o
    → Ends Q p
    → Ends Q (if b then o else p)
if-Ends Q true o p h k = h
if-Ends Q false o p h k = k

-- A loop whose body is quiet.
pub for_u8-Quiet :
    (fuel i end : ℕ) (body : ℕ → EspOld → EspOld) (s t : EspOld)
    → ((i : ℕ) (u : EspOld) → Quiet u (body i u))
    → Quiet s t
    → Ends (Quiet s) (for_u8 fuel i end body t)
unfolding for_u8
for_u8-Quiet zero i end body s t keeps q = tt
for_u8-Quiet (suc fuel) i end body s t keeps q =
    if-Ends (Quiet s) (ltb i end) (for_u8 fuel (u8 (i + 1)) end body (body i t)) (some t)
      (for_u8-Quiet fuel (u8 (i + 1)) end body s (body i t) keeps (Quiet-trans q (keeps i t))) q
