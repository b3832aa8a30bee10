-- ===== src/Base/Result.antt =====
-- What a call leaves: a result, or the failed check that stops the program.
use mathlib.Core.Path.{◌≡◌, refl, subst}
use mathlib.Core.Bool.{Bool, true, false}
use pcc_uspace.Base.Tests.{if◌then◌else◌}

-- One constructor for each `assert` or `exit(-1)` of the modelled code, and for each read that the
-- language leaves undefined (the front of an empty deque, an index past the end of a vector).
pub data Fault : Type 0 where
  available_exceeds_useful : Fault
  available_mismatch : Fault
  front_of_empty : Fault
  back_of_empty : Fault
  utility_count : Fault
  utility_parameter : Fault
  single_sent_time : Fault
  useful_without_rtt : Fault
  decision_mode : Fault
  probing_mode : Fault
  starting_rate_change : Fault
  zero_rate_change : Fault
  top_of_empty : Fault
  null_min_seq : Fault
  min_seq_overflow : Fault
  no_message_record : Fault
  already_recorded : Fault
  not_recorded : Fault
  not_queued : Fault
  sent_out_of_order : Fault
  retransmitted_out_of_order : Fault
  null_parameter : Fault
  division_by_zero : Fault
  null_unit : Fault

-- What a call leaves, for its caller.
pub data Result {κ} (X : Type κ) : Type κ where
  ok : X → Result X
  err : Fault → Result X

-- An `assert` on a condition.
abbrev pub check : Bool → Fault → Result (Unit {0})
check false fault = err fault
check true fault = ok tt

-- A chain of calls stops at its first fault.
infixl 5 ◌>>=◌
abbrev pub ◌>>=◌ {κ ρ} : {X : Type κ} {Y : Type ρ} → Result X → (X → Result Y) → Result Y
err fault >>= next = err fault
ok x >>= next = next x

-- The same where the first call only checks.
infixl 5 ◌>>◌
abbrev pub ◌>>◌ {ρ} : {Y : Type ρ} → Result (Unit {0}) → Result Y → Result Y
first >> next = first >>= λ done. next

-- A call succeeds with a result in `P`, or fails with a fault in `E`.
abbrev pub Returns {ℓ} : {A : Type ℓ} → (Fault → Type 0) → Result A → (A → Type 0) → Type 0
Returns E (ok a) P = P a
Returns E (err e) P = E e

-- The call fails in no way.
abbrev pub NoFault : Fault → Type 0
NoFault e = ⊥

module _ (E : Fault → Type 0) where
  -- The postcondition of a chain, from one for each of its parts.
  pub >>=-Returns {ℓ κ} :
      {A : Type ℓ} {B : Type κ} (m : Result A) (f : A → Result B) (P : A → Type 0) (Q : B → Type 0)
      → Returns E m P
      → ((a : A) → P a → Returns E (f a) Q)
      → Returns E (m >>= f) Q
  >>=-Returns (ok a) f P Q h k = k a h
  >>=-Returns (err e) f P Q h k = h

  pub Returns-mono {ℓ} :
      {A : Type ℓ} (m : Result A) (P Q : A → Type 0)
      → ((a : A) → P a → Q a)
      → Returns E m P
      → Returns E m Q
  Returns-mono (ok a) P Q k h = k a h
  Returns-mono (err e) P Q k h = h

  -- A check that holds, and a test whose branches both satisfy the postcondition.
  pub check-Returns {ℓ} :
      {A : Type ℓ} (b : Bool) (f : Fault) (m : Result A) (P : A → Type 0)
      → b ≡ true
      → Returns E m P
      → Returns E (check b f >> m) P
  check-Returns true f m P h k = k
  check-Returns false f m P h k = cc

  pub if-Returns {ℓ} :
      {A : Type ℓ} (b : Bool) (m n : Result A) (P : A → Type 0)
      → (b ≡ true → Returns E m P)
      → (b ≡ false → Returns E n P)
      → Returns E (if b then m else n) P
  if-Returns true m n P h k = h refl
  if-Returns false m n P h k = k refl

  -- A check whose fault is among those that the postcondition admits.
  pub check-may {ℓ} :
      {A : Type ℓ} (b : Bool) (f : Fault) (m : Result A) (P : A → Type 0)
      → E f
      → (b ≡ true → Returns E m P)
      → Returns E (check b f >> m) P
  check-may true f m P h k = k refl
  check-may false f m P h k = h

  -- What a postcondition says of the result of a call that succeeded.
  pub Returns-ok {ℓ} :
      {A : Type ℓ} (m : Result A) (P : A → Type 0) (a : A) → m ≡ ok a → Returns E m P → P a
  Returns-ok m P a e h = subst (λ x. Returns E x P) e h

  -- Two postconditions of one call.
  pub Returns-and {ℓ} :
      {A : Type ℓ} (m : Result A) (P Q : A → Type 0)
      → Returns E m P
      → Returns E m Q
      → Returns E m (λ a. P a × Q a)
  Returns-and (ok a) P Q h k = (h, k)
  Returns-and (err e) P Q h k = h

-- A postcondition that holds where a call succeeds, beside one that also bounds its faults.
pub Returns-with {ℓ} :
    (D E : Fault → Type 0) {A : Type ℓ} (m : Result A) (P Q : A → Type 0)
    → Returns D m P
    → Returns E m Q
    → Returns E m (λ a. P a × Q a)
Returns-with D E (ok a) P Q h k = (h, k)
Returns-with D E (err e) P Q h k = k

pub Returns_any {ℓ} :
    (E : Fault → Type 0) {A : Type ℓ} (m : Result A) (P : A → Type 0)
    → Returns NoFault m P
    → Returns E m P
Returns_any E (ok a) P h = h
Returns_any E (err e) P h = absurd h

pub Returns-faults {ℓ} :
    (D E : Fault → Type 0) {A : Type ℓ} (m : Result A) (P : A → Type 0)
    → ((e : Fault) → D e → E e)
    → Returns D m P
    → Returns E m P
Returns-faults D E (ok a) P f h = h
Returns-faults D E (err e) P f h = f e h
