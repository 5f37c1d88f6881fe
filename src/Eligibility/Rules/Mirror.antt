-- ===== src/Eligibility/Rules/Mirror.antt =====
-- The mirror is a projection of the rules: after a write, and after a rehydration, its readers see the
-- configuration of the rows.
use cs_server.Prelude.{
  String, ◌≡◌, refl, sym, ◌∙◌, inl, inr, true, Bool-cases, Option, none, some, List, [], ◌∷◌,
}
use cs_server.Python.Except.{Result, Exec, ok, raised, Result-cases, proceed, lift, ◌>>=◌}
use cs_server.Python.Json.{Json}
use cs_server.Eligibility.Category.{Case}
use cs_server.Eligibility.Evaluate.{EligibilityConfig, defaults}
use cs_server.Eligibility.Rules.{
  Rule, Blob, assemble_eligibility_blob, json_of, from_dict, decompose_eligibility_blob,
  eligibility_config_from_rules,
}
use cs_server.Eligibility.Rules.Service.{
  Store, list_eligibility_rules, write_mirror, project_mirror, rehydrate_mirror, effective_config,
  remirror, validate, add_eligibility_rule, remove_eligibility_rule, replace_eligibility_rules,
  add_rule, remove_rule, set_full_config, load_eligibility_config, parsed_config,
}

-- Whatever an action that returns leaves behind.
record Ensures {S A : Type 0} (Q : A → S → Type 0) (m : Exec S A) : Type 0 where
  pub after : (s : S) (a : A) → (m s).0 ≡ ok a → Q a (m s).1

proceed-Ensures :
    {S A B : Type 0} (Q : B → S → Type 0) (x : Result A) (t : S) (k : A → Exec S B)
    → ((a : A) → Ensures Q (k a))
    → (b : B) → (proceed x t k).0 ≡ ok b
    → Q b (proceed x t k).1
proceed-Ensures Q (ok a) t k h b e = (h a).after t b e
proceed-Ensures Q (raised x) t k h b e = absurd (cc)

>>=-Ensures :
    {S A B : Type 0} (Q : B → S → Type 0) (m : Exec S A) (k : A → Exec S B)
    → ((a : A) → Ensures Q (k a))
    → Ensures Q (m >>= k)
>>=-Ensures Q m k h = record { after = λ s b. proceed-Ensures Q (m s).0 (m s).1 k h b }

-- A write of the rules.
pub data Write : Type 0 where
  adding removing : String → String → Write
  setting : Json → Write

module _ (case : Case) where
  -- The readers of the mirror and the rows give this configuration.
  pub record Agrees (cfg : EligibilityConfig) (s : Store) : Type 0 where
    pub readers : load_eligibility_config case s ≡ cfg
    pub rows : (effective_config case s).0 ≡ ok cfg

  -- The projection of given rules, then their configuration.
  abbrev mirror_of : List Rule → Exec Store EligibilityConfig
  mirror_of rules =
      project_mirror rules >>= λ _. lift (eligibility_config_from_rules case rules true)

  effective_config-rows :
      (s : Store) → (effective_config case s).0 ≡ eligibility_config_from_rules case s.rules true
  unfolding effective_config
  effective_config-rows s = refl

  load-parsed :
      (v : Option Json) (s : Store)
      → s.reachable ≡ true
      → load_eligibility_config case (record s { mirror = v }) ≡ parsed_config case v
  unfolding load_eligibility_config
  load-parsed v s h = rw h refl

  config_of_rules :
      (r : Rule) (rules : List Rule) (blob : Blob)
      → assemble_eligibility_blob (r ∷ rules) ≡ ok blob
      → eligibility_config_from_rules case (r ∷ rules) true ≡ from_dict case (json_of blob) true
  unfolding eligibility_config_from_rules
  config_of_rules r rules blob h = rw h refl

  -- With the mirror's value of the rows, in reach.
  written-Agrees :
      (v : Option Json) (s : Store) (cfg : EligibilityConfig)
      → s.reachable ≡ true
      → parsed_config case v ≡ cfg
      → eligibility_config_from_rules case s.rules true ≡ ok cfg
      → Agrees cfg (record s { mirror = v })
  written-Agrees v s cfg b read h = record {
    readers = load-parsed v s b ∙ read;
    rows = effective_config-rows (record s { mirror = v }) ∙ h;
  }

  write_then :
      (v : Option Json) (c : Result EligibilityConfig) (s : Store) (cfg : EligibilityConfig)
      → ((write_mirror v >>= λ _. lift c) s).0 ≡ ok cfg
      → (s.reachable ≡ true)
        × ((c ≡ ok cfg) × (((write_mirror v >>= λ _. lift c) s).1 ≡ record s { mirror = v }))
  unfolding write_mirror
  write_then v c s cfg e = elim (Bool-cases s.reachable) [
    | inl b ↦ (b, (rw b at e, rw b refl))
    | inr b ↦ absurd (cc (rw b at e))
  ]

  mirrored :
      (rules : List Rule) (s : Store) (cfg : EligibilityConfig)
      → s.rules ≡ rules
      → (mirror_of rules s).0 ≡ ok cfg
      → Agrees cfg (mirror_of rules s).1
  unfolding project_mirror eligibility_config_from_rules
  mirrored [] s cfg h e =
      let (b, (c, t)) = write_then none (ok defaults) s cfg e in
      rw t (written-Agrees none s cfg b (cc c) (rw h c))
  mirrored (r ∷ rules) s cfg h e = elim (Result-cases (assemble_eligibility_blob (r ∷ rules))) [
    | inl (blob, a) ↦
        let (b, (c, t)) =
          write_then (some (json_of blob)) (from_dict case (json_of blob) true) s cfg (rw a at e) in
        rw (a, t)
          (written-Agrees (some (json_of blob)) s cfg b (rw c refl)
            (rw (h, config_of_rules r rules blob a) c))
    | inr (x, a) ↦ absurd (cc (rw a at e))
  ]

  remirror-Ensures : Ensures Agrees (remirror case)
  unfolding remirror list_eligibility_rules
  remirror-Ensures = record { after = λ s cfg e. mirrored s.rules s cfg refl e }

  abbrev pub write : Write → Exec Store EligibilityConfig
  write (adding t v) = add_rule case t v
  write (removing t v) = remove_rule case t v
  write (setting blob) = set_full_config case blob

  write-Ensures : (w : Write) → Ensures Agrees (write w)
  unfolding add_rule remove_rule set_full_config
  write-Ensures (adding t v) =
      >>=-Ensures Agrees (lift (validate case t v)) _
        λ r. >>=-Ensures Agrees (add_eligibility_rule r) _ λ _. remirror-Ensures
  write-Ensures (removing t v) =
      >>=-Ensures Agrees (lift (validate case t v)) _
        λ r. >>=-Ensures Agrees (remove_eligibility_rule r) _ λ _. remirror-Ensures
  write-Ensures (setting blob) = >>=-Ensures Agrees (lift (from_dict case blob true)) _ λ c.
      >>=-Ensures Agrees (lift (decompose_eligibility_blob case blob)) _
        λ rows. >>=-Ensures Agrees (replace_eligibility_rules rows) _ λ _. remirror-Ensures

  -- Whatever the mirror held, a write of the rules that returns a configuration leaves rows that give
  -- this configuration, and readers of the mirror see the same.
  pub write-Agrees :
      (w : Write) (s : Store) (cfg : EligibilityConfig)
      → (write w s).0 ≡ ok cfg
      → Agrees cfg (write w s).1
  write-Agrees w s cfg e = (write-Ensures w).after s cfg e

  write_mirror_reached :
      (v : Option Json) (s : Store)
      → s.reachable ≡ true
      → (write_mirror v s).1 ≡ record s { mirror = v }
  unfolding write_mirror
  write_mirror_reached v s b = rw b refl

  write_mirror-Agrees :
      (v : Option Json) (s : Store) (cfg : EligibilityConfig)
      → s.reachable ≡ true
      → parsed_config case v ≡ cfg
      → eligibility_config_from_rules case s.rules true ≡ ok cfg
      → Agrees cfg (write_mirror v s).1
  write_mirror-Agrees v s cfg b read h =
      rw (write_mirror_reached v s b) (written-Agrees v s cfg b read h)

  project_mirror-Agrees :
      (rules : List Rule) (s : Store) (cfg : EligibilityConfig)
      → s.rules ≡ rules
      → s.reachable ≡ true
      → eligibility_config_from_rules case rules true ≡ ok cfg
      → Agrees cfg (project_mirror rules s).1
  unfolding project_mirror eligibility_config_from_rules
  project_mirror-Agrees [] s cfg h b c = write_mirror-Agrees none s cfg b (cc c) (rw h c)
  project_mirror-Agrees (r ∷ rules) s cfg h b c =
      elim (Result-cases (assemble_eligibility_blob (r ∷ rules))) [
        | inl (blob, a) ↦
            let d = sym (config_of_rules r rules blob a) ∙ c in
            rw a (write_mirror-Agrees (some (json_of blob)) s cfg b (rw d refl) (rw h c))
        | inr (x, a) ↦ absurd (cc (rw a at c))
      ]

  write_mirror_rules : (v : Option Json) (s : Store) → (write_mirror v s).1.rules ≡ s.rules
  unfolding write_mirror
  write_mirror_rules v s = elim (Bool-cases s.reachable) [ inl b ↦ rw b refl | inr b ↦ rw b refl ]

  project_mirror_rules :
      (rules : List Rule) (s : Store) → (project_mirror rules s).1.rules ≡ s.rules
  unfolding project_mirror
  project_mirror_rules [] s = write_mirror_rules none s
  project_mirror_rules (r ∷ rules) s = elim (Result-cases (assemble_eligibility_blob (r ∷ rules))) [
    | inl (blob, a) ↦ rw a (write_mirror_rules (some (json_of blob)) s)
    | inr (x, a) ↦ rw a refl
  ]

  -- A rehydration never raises and never changes the rows. Where the mirror is in reach and the rows
  -- give a configuration, its readers see that configuration afterwards, whatever the mirror held: a
  -- flushed or stale mirror heals.
  pub rehydrate_mirror-Agrees :
      (s : Store)
      → ((rehydrate_mirror s).0 ≡ ok tt)
        × (((rehydrate_mirror s).1.rules ≡ s.rules)
            × (s.reachable ≡ true
                → (cfg : EligibilityConfig) → (effective_config case s).0 ≡ ok cfg
                → Agrees cfg (rehydrate_mirror s).1))
  unfolding rehydrate_mirror list_eligibility_rules
  rehydrate_mirror-Agrees s = (
    refl,
    (
      project_mirror_rules s.rules s,
      λ b cfg e. project_mirror-Agrees s.rules s cfg refl b (sym (effective_config-rows s) ∙ e),
    ),
  )
