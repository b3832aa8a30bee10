-- ===== src/Base/Places.antt =====
-- Arrays and tables that the code reads only where it wrote: functions of the place.
use pcc_uspace.Base.{ℕ, Bool, Option, none, some, true, false, ◌==◌, if◌then◌else◌}

-- A write.
abbrev pub update {ℓ} : {A : Type ℓ} → (ℕ → A) → ℕ → A → ℕ → A
update f i v j = if i == j then v else f j

abbrev pub is_some {ℓ} : {A : Type ℓ} → Option A → Bool
is_some none = false
is_some (some a) = true
