-- ===== src/Env/Set.antt =====
-- Setting a variable and reading it back.
use racoon.Base.{
  ℕ, ◌+◌, ◌*◌, ◌<◌, ◌≡◌, refl, ap, ◌∙◌, sym, subst, dec_lt, Option-cases, true, false, inl, inr,
  arith, Option, some, tabulate, ltb, ◌==◌, ok,
}
use racoon.Text.{Buffer, kmemcpy}
use racoon.Text.Compare.{IsBytes}
use racoon.Env.{
  EnvironInfo, Environment, smk_ok, name_length, name_position, table_of, overwrite, append,
  set_environment,
}
use racoon.Env.Find.{IsTable}
use racoon.Env.Entries.{
  pos_in, overwritten, appended, value-overwritten_same, value-overwritten_other, appended-IsTable,
  value-appended_same, value-appended_other, Keeps, Written, tabulate-kmemcpy,
}

module _ (kmalloc : ℕ → Option Buffer)
    (krealloc : Option (ℕ → EnvironInfo) → ℕ → Option (ℕ → EnvironInfo)) (env : Environment)
    (info : ℕ → EnvironInfo) (name bytes mem : Buffer) (size : ℕ) (pos : 0 < size)
    (table : table_of env ≡ ok info) (v : IsTable info env.environment_count)
    (b : IsBytes name_length name) (memory : kmalloc size ≡ some mem) where
  abbrev count : ℕ
  count = env.environment_count

  stored : tabulate size (kmemcpy mem bytes size) ≡ tabulate size bytes
  stored = tabulate-kmemcpy size mem bytes

  set_old :
      name_position info count name < count
      → (env' : Environment) × (set_environment kmalloc krealloc env (some name) (some bytes) size
          ≡ ok (smk_ok, env'))
        × Written name size bytes info count env'
  unfolding set_environment overwrite
  set_old h =
      let p = name_position info count name in
      let p_in : ltb p count ≡ true = ground (arith, h) in
      let nonzero : (size == 0) ≡ false = ground arith in
      let copy = kmemcpy mem bytes size in
      (
        record env { environment = some (overwritten info count v name b size copy) },
        rw (nonzero, table, p_in) (rw (memory, overwrite)),
        record {
          table = overwritten info count v name b size copy;
          pointer = refl;
          valid = record {
            named = λ i lt.
                let e : (overwritten info count v name b size copy i).name ≡ (info i).name =
                  ground arith in
                subst (IsBytes name_length) (sym e) (v.named i lt);
          };
          new_value = λ n bn e.
              value-overwritten_same info count v name b size copy n bn h e ∙ ap some stored;
          old_value = λ n bn ne. value-overwritten_other info count v name b size copy n bn h ne;
        },
      )

  old_entries :
      (grown : ℕ → EnvironInfo)
      → Keeps krealloc
      → krealloc env.environment ((count + 1) * 1032) ≡ some grown
      → (i : ℕ) → i < count
      → grown i ≡ info i
  unfolding table_of
  old_entries grown keeps more i h = elim (Option-cases env.environment) [
    | inl null ↦ absurd (ground (arith, table, null, h))
    | inr (old, e) ↦
        let entries : old ≡ info = ground (arith, table, e) in
        keeps old grown count (subst (λ t. krealloc t ((count + 1) * 1032) ≡ some grown) e more) i h
        ∙ ap (λ f. f i) entries
  ]

  set_new :
      (grown : ℕ → EnvironInfo)
      → Keeps krealloc
      → krealloc env.environment ((count + 1) * 1032) ≡ some grown
      → name_position info count name ≡ count
      → (env' : Environment) × (set_environment kmalloc krealloc env (some name) (some bytes) size
          ≡ ok (smk_ok, env'))
        × Written name size bytes info count env'
  unfolding set_environment append
  set_new grown keeps more missing =
      let p_out : ltb (name_position info count name) count ≡ false = ground (arith, missing) in
      let nonzero : (size == 0) ≡ false = ground arith in
      let copy = kmemcpy mem bytes size in
      let kept = old_entries grown keeps more in
      (
        record {
          environment = some (appended info count v name b size copy grown kept missing);
          environment_count = count + 1;
        },
        rw (nonzero, table, p_out) (rw (memory, more, append)),
        record {
          table = appended info count v name b size copy grown kept missing;
          pointer = refl;
          valid = appended-IsTable info count v name b size copy grown kept missing;
          new_value = λ n bn e.
              value-appended_same info count v name b size copy grown kept missing n bn e
              ∙ ap some stored;
          old_value = λ n bn ne.
              value-appended_other info count v name b size copy grown kept missing n bn ne;
        },
      )

  -- With memory, setting a variable in a table of names succeeds: the name then has the given bytes,
  -- every other name keeps its value, and the table is one of names again.
  pub set_environment_lem :
      (grown : ℕ → EnvironInfo)
      → Keeps krealloc
      → krealloc env.environment ((count + 1) * 1032) ≡ some grown
      → (env' : Environment) × (set_environment kmalloc krealloc env (some name) (some bytes) size
          ≡ ok (smk_ok, env'))
        × Written name size bytes info count env'
  set_environment_lem grown keeps more = elim (dec_lt (name_position info count name) count) [
    | yes h ↦ set_old h
    | no h ↦ set_new grown keeps more (omega (arith, h, pos_in info count v name b name))
  ]
