-- ===== src/Registry/Diff/Keeps.antt =====
-- A difference that is breaking stays so, whatever is compared after it.
use forge_eng_fabric.Prelude.{
  String, Bool, true, false, not, List, [], ◌∷◌, Option, none, some, ◌≡◌, refl, ap, subst, inl, inr,
  Member, ◌==◌, string_eq, if◌then◌else◌,
}
use forge_eng_fabric.Prelude.Assoc.{lookup}
use forge_eng_fabric.Prelude.Text.{◌+s◌}
use forge_eng_fabric.Prelude.Value.{Fields}
use forge_eng_fabric.Workflow.Ast.{Step, IoField, Trigger}
use forge_eng_fabric.Registry.SemVer.{bump_major}
use forge_eng_fabric.Registry.Diff.Marks.{
  DiffResult, mark_major, mark_minor, mark_patch_migration, mark_if, raised, each, mark_absent,
}
use forge_eng_fabric.Registry.Diff.{
  is_prompt_to_template_migration, diff_input, diff_output, diff_step_type, diff_llm_step,
  diff_step, trigger_added, diff_trigger, note_metadata,
}

pub record IsMajor (d : DiffResult) : Type 0 where
  pub is_major : d.bump ≡ bump_major

-- What is major before is major after.
abbrev pub Keeps : (DiffResult → DiffResult) → Type 0
Keeps f = (d : DiffResult) → IsMajor d → IsMajor (f d)

pub mark_major-Keeps : (reason : String) → Keeps (mark_major reason)
unfolding mark_major
mark_major-Keeps reason d h = record { is_major = refl }

pub mark_minor-Keeps : (reason : String) → Keeps (mark_minor reason)
unfolding mark_minor
mark_minor-Keeps reason d h = record { is_major = ap raised h.is_major }

mark_patch-Keeps : (reason : String) → Keeps (mark_patch_migration reason)
unfolding mark_patch_migration
mark_patch-Keeps reason d h = record { is_major = h.is_major }

mark_if-Keeps : (b : Bool) (f : DiffResult → DiffResult) → Keeps f → Keeps (mark_if b f)
unfolding mark_if
mark_if-Keeps true f k d h = k d h
mark_if-Keeps false f k d h = h

module _ {A : Type 0} (body : A → DiffResult → DiffResult) (keeps : (x : A) → Keeps (body x)) where
  pub each-Keeps : (xs : List A) → Keeps (each body xs)
  unfolding each
  each-Keeps [] d h = h
  each-Keeps (x ∷ xs) d h = each-Keeps xs (body x d) (keeps x d h)

  -- One element whose comparison is breaking is enough.
  pub each-IsMajor :
      (x : A)
      → ((d : DiffResult) → IsMajor (body x d))
      → (xs : List A) → Member x xs
      → (d : DiffResult) → IsMajor (each body xs d)
  unfolding each
  each-IsMajor x major [] m d = absurd m
  each-IsMajor x major (y ∷ ys) (inl e) d =
      each-Keeps ys (body y d) (subst (λ z. IsMajor (body z d)) e (major d))
  each-IsMajor x major (y ∷ ys) (inr m) d = each-IsMajor x major ys m (body y d)

pub mark_absent-Keeps :
    {V W : Type 0} (mark : String → DiffResult → DiffResult) (prefix : String)
    (m : List (String × V)) (e : String × W)
    → ((reason : String) → Keeps (mark reason))
    → Keeps (mark_absent mark prefix m e)
unfolding mark_absent
mark_absent-Keeps mark prefix m (key, w) k d h = by_entry (lookup key m)
  where
    by_entry :
        {V : Type 0} (o : Option V)
        → IsMajor (elim o as (λ _. DiffResult) [ none ↦ mark (prefix +s key) d | some v ↦ d ])
    by_entry none = k (prefix +s key) d h
    by_entry (some v) = h

-- A comparison that is made where the other map has the key.
looked_up-Keeps :
    {V : Type 0} (o : Option V) (absent : DiffResult → DiffResult)
    (present : V → DiffResult → DiffResult)
    → Keeps absent
    → ((v : V) → Keeps (present v))
    → Keeps (λ d. elim o as (λ _. DiffResult) [ none ↦ absent d | some v ↦ present v d ])
looked_up-Keeps none absent present k l d h = k d h
looked_up-Keeps (some v) absent present k l d h = l v d h

pub diff_input-Keeps :
    (next : List (String × IoField)) (e : String × IoField) → Keeps (diff_input next e)
unfolding diff_input
diff_input-Keeps next (name, p) =
    looked_up-Keeps (lookup name next) _ _ (mark_major-Keeps _) (λ n d h.
      mark_if-Keeps _ _ (mark_major-Keeps _) _ (mark_if-Keeps _ _ (mark_major-Keeps _) d h))

pub diff_output-Keeps :
    (next : List (String × IoField)) (e : String × IoField) → Keeps (diff_output next e)
unfolding diff_output
diff_output-Keeps next (name, p) =
    looked_up-Keeps (lookup name next) _ _ (mark_major-Keeps _)
      (λ n d h. mark_if-Keeps _ _ (mark_major-Keeps _) d h)

diff_step_type-Keeps : (id : String) (p n : Step) → Keeps (diff_step_type id p n)
unfolding diff_step_type
diff_step_type-Keeps id p n =
    mark_if-Keeps _ _ (either (is_prompt_to_template_migration p.step_type n.step_type))
  where
    either :
        (b : Bool)
        → Keeps (
            if b
            then mark_patch_migration ("migrate_prompt_to_prompt_template:" +s id)
            else mark_major
                ("step_type_changed:" +s id +s ":" +s p.step_type +s "->" +s n.step_type))
    either true = mark_patch-Keeps _
    either false = mark_major-Keeps _

diff_llm_step-Keeps : (id : String) (p n : Step) → Keeps (diff_llm_step id p n)
unfolding diff_llm_step
diff_llm_step-Keeps id p n d h =
    each-Keeps _ (λ e. mark_absent-Keeps mark_minor _ _ e mark_minor-Keeps) n.step_outputs _
      (each-Keeps _ (λ e. mark_absent-Keeps mark_major _ _ e mark_major-Keeps) p.step_outputs _
        (mark_if-Keeps _ _ (mark_minor-Keeps _) _
          (mark_if-Keeps _ _ (mark_minor-Keeps _) _ (mark_if-Keeps _ _ (mark_minor-Keeps _) d h))))

pub diff_step-Keeps : (prev : List (String × Step)) (e : String × Step) → Keeps (diff_step prev e)
unfolding diff_step
diff_step-Keeps prev (id, n) = looked_up-Keeps (lookup id prev) _ _ (mark_minor-Keeps _) (λ p d h.
    mark_if-Keeps _ _ (diff_llm_step-Keeps id p n) _ (
      mark_if-Keeps _ _ (mark_minor-Keeps _) _
        (mark_if-Keeps _ _ (mark_minor-Keeps _) _ (diff_step_type-Keeps id p n d h))))

trigger_added-Keeps : (id : String) (n : Trigger) → Keeps (trigger_added id n)
unfolding trigger_added
trigger_added-Keeps id n = either (not (n.migrated_from == ""))
  where
    either :
        (b : Bool)
        → Keeps (
            if b
            then mark_patch_migration ("migrate_event_trigger_to_triggers_block:" +s id)
            else mark_minor ("trigger_added:" +s id))
    either true = mark_patch-Keeps _
    either false = mark_minor-Keeps _

pub diff_trigger-Keeps :
    (deep_equal : Option Fields → Option Fields → Bool) (prev : List (String × Trigger))
    (e : String × Trigger)
    → Keeps (diff_trigger deep_equal prev e)
unfolding diff_trigger
diff_trigger-Keeps deep_equal prev (id, n) =
    looked_up-Keeps (lookup id prev) _ _ (trigger_added-Keeps id n) (λ p d h.
      mark_if-Keeps _ _ (mark_minor-Keeps _) _ (
        each-Keeps _ (λ e. mark_absent-Keeps mark_minor _ _ e mark_minor-Keeps) n.outputs _
          (each-Keeps _ (λ e. mark_absent-Keeps mark_major _ _ e mark_major-Keeps) p.outputs _
            (mark_if-Keeps _ _ (mark_minor-Keeps _) _
              (mark_if-Keeps _ _ (mark_major-Keeps _) d h)))))

pub note_metadata-Keeps : (changed : Bool) → Keeps (note_metadata changed)
unfolding note_metadata
note_metadata-Keeps changed d h = record { is_major = rw h.is_major refl }
