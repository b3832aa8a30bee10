-- ===== src/Utility/Settings.antt =====
-- pcc/pcc_utility_manager.cpp: the setters of the manager, in any order.
use pcc_uspace.Base.{
  ℕ, zero, suc, ◌≡◌, refl, ◌∙◌, ◌<◌, List, [], ◌∷◌, ◌++◌, length, length-append, get_or, arith,
}
use pcc_uspace.Utility.{
  UtilityTag, UtilityManager, set_utility_tag, set_effective_utility_tag, set_utility_parameter,
  get_utility_parameter,
}

-- A call of one of the setters.
pub data Setting (F : Type 0) : Type 0 where
  tag_set : UtilityTag → Setting F
  effective_tag_set : UtilityTag → Setting F
  parameter_set : F → Setting F

get_or-append :
    {F : Type 0} (l k : List F) (n : ℕ) (d : F) → n < length l → get_or (l ++ k) n d ≡ get_or l n d
get_or-append [] k n d h = absurd (omega arith)
get_or-append (x ∷ l) k zero d h = refl
get_or-append (x ∷ l) k (suc n) d h = get_or-append l k n d (omega arith)

module _ {F S : Type 0} where
  unfoldable pub apply_setting : Setting F → UtilityManager F S → UtilityManager F S
  unfolding set_utility_tag set_effective_utility_tag set_utility_parameter
  apply_setting (tag_set t) m = set_utility_tag t m
  apply_setting (effective_tag_set t) m = set_effective_utility_tag t m
  apply_setting (parameter_set v) m = set_utility_parameter v m

  unfoldable pub apply_settings : List (Setting F) → UtilityManager F S → UtilityManager F S
  unfolding apply_setting
  apply_settings [] m = m
  apply_settings (s ∷ l) m = apply_settings l (apply_setting s m)

  apply_setting_keeps :
      (s : Setting F) (m : UtilityManager F S) (k : ℕ) (d : F)
      → k < length m.utility_parameters
      → (k < length (apply_setting s m).utility_parameters)
        × (get_or (apply_setting s m).utility_parameters k d ≡ get_or m.utility_parameters k d)
  unfolding apply_setting set_utility_tag set_effective_utility_tag set_utility_parameter
  apply_setting_keeps (tag_set t) m k d h = (h, refl)
  apply_setting_keeps (effective_tag_set t) m k d h = (h, refl)
  apply_setting_keeps (parameter_set v) m k d h = (
    ground (arith, h, length-append m.utility_parameters (v ∷ [])),
    ground (arith, get_or-append m.utility_parameters (v ∷ []) k d h),
  )

  -- A parameter that was set keeps its index and its value under any later calls of the setters,
  -- also those that change the tag.
  pub get_utility_parameter-apply_settings :
      (l : List (Setting F)) (m : UtilityManager F S) (k : ℕ) (d : F)
      → k < length m.utility_parameters
      → get_utility_parameter d (apply_settings l m) k ≡ get_utility_parameter d m k
  unfolding apply_settings get_utility_parameter
  get_utility_parameter-apply_settings [] m k d h = refl
  get_utility_parameter-apply_settings (s ∷ l) m k d h =
      let kept = apply_setting_keeps s m k d h in
      get_utility_parameter-apply_settings l (apply_setting s m) k d kept.0 ∙ kept.1
