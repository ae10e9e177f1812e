-- ===== src/Manager/Started.antt =====
-- What is registered when the manager starts.
use checkpoint_operator.Base.{
  Bool-cases, ◌⊎◌, inl, inr, ap, sym, ◌∙◌, refl, List, [], ◌∷◌, ◌++◌, Bool, true, false, not, Bytes,
  codes, ◌=s◌, if◌then◌else◌, ◌≡◌, arith,
}
use checkpoint_operator.Outcome.{Error, is_ok}
use checkpoint_operator.Cluster.{Trace}
use checkpoint_operator.Proc.{Run, Proc, ◌>>◌, on_error, ◌>>=◌, when, or_fail}
use checkpoint_operator.Manager.{
  Kind, Flags, Action, Host, get_config, new_manager, set_up_migration, set_up_daemon_set,
  set_up_webhook, set_up_node_monitor, add_healthz_check, add_readyz_check, start, options, act,
  finish, main,
}

abbrev is_start : Action → Bool
is_start start = true
is_start _ = false

abbrev pub starts : List Action → Bool
starts [] = false
starts (a ∷ more) = if is_start a then true else starts more

-- All that has to be registered, the last first.
abbrev pub registered : List Kind → Flags → Bool → List Action
registered scheme flags webhooks =
    add_readyz_check
      ∷ add_healthz_check
      ∷ set_up_node_monitor
      ∷ (if webhooks then set_up_webhook ∷ [] else [])
    ++ set_up_daemon_set ∷ set_up_migration ∷ new_manager (options scheme flags) ∷ get_config ∷ []

-- Each of the calls has succeeded.
abbrev pub all_ok : Host → List Action → Bool
all_ok host [] = true
all_ok host (a ∷ more) = if is_ok (host more a) then all_ok host more else false

module _ (host : Host) where
  -- If a run after the calls `before` starts the manager, then it makes just these calls before that.
  abbrev Leads : List Action → List Action → Run (List Action) (Unit {0}) → Type 0
  Leads all before r =
      starts r.globals ≡ true
      → all_ok host before ≡ true
      → (r.globals ≡ start ∷ all) × (all_ok host all ≡ true)

  -- A call that is not the last.
  Leads-step :
      (all : List Action) (a : Action) (f : Error → Error) (rest : Proc (List Action) (Unit {0}))
      (before : List Action) (t : Trace)
      → is_start a ≡ false
      → starts before ≡ false
      → Leads all (a ∷ before) (rest (a ∷ before) t)
      → Leads all before ((or_fail (act host a) f >> rest) before t)
  unfolding act on_error ◌>>=◌
  Leads-step all a f rest before t e n next h k = ground arith

  Leads-start :
      (f : Error → Error) (before : List Action) (t : Trace)
      → starts before ≡ false
      → Leads before before (or_fail (act host start) f before t)
  unfolding act on_error
  Leads-start f before t n h k = ground arith

  finish-Leads :
      (before : List Action) (t : Trace)
      → starts before ≡ false
      → Leads
          (add_readyz_check ∷ add_healthz_check ∷ set_up_node_monitor ∷ before)
          before
          (finish host before t)
  unfolding finish
  finish-Leads before t n =
      Leads-step _ _ _ _ _ t refl n
        (Leads-step _ _ _ _ _ t refl n (Leads-step _ _ _ _ _ t refl n (Leads-start _ _ t n)))

  webhook-Leads :
      (scheme : List Kind) (webhooks : Bool) (flags : Flags) (f : Error → Error) (t : Trace)
      → let before =
          set_up_daemon_set
          ∷ set_up_migration
          ∷ new_manager (options scheme flags)
          ∷ get_config
          ∷ [] in
        Leads
          (registered scheme flags webhooks)
          before
          ((when webhooks (or_fail (act host set_up_webhook) f) >> finish host) before t)
  unfolding ◌>>=◌
  webhook-Leads scheme true flags f t = Leads-step _ _ _ _ _ t refl refl (finish-Leads _ t refl)
  webhook-Leads scheme false flags f t = finish-Leads _ t refl

module _ (host : Host) where
  main-Leads :
      (scheme : List Kind) (flags : Flags) (enable_webhooks : Bytes) (t : Trace)
      → Leads host
          (registered scheme flags (not (enable_webhooks =s codes "false")))
          []
          (main host scheme flags enable_webhooks [] t)
  unfolding main
  main-Leads scheme flags enable_webhooks t = Leads-step host _ _ _ _ _ t refl refl (
      Leads-step host _ _ _ _ _ t refl refl (
        Leads-step host _ _ _ _ _ t refl refl
          (Leads-step host _ _ _ _ _ t refl refl (webhook-Leads host scheme _ flags _ t))))

  -- If each call of `all` succeeds, then a run after some of them makes all of them, and the start.
  abbrev Arrives : List Action → Run (List Action) (Unit {0}) → Type 0
  Arrives all r = all_ok host all ≡ true → r.globals ≡ start ∷ all

  Arrives-step :
      (all : List Action) (a : Action) (f : Error → Error) (rest : Proc (List Action) (Unit {0}))
      (before : List Action) (t : Trace)
      → (all_ok host all ≡ true → is_ok (host before a) ≡ true)
      → Arrives all (rest (a ∷ before) t)
      → Arrives all ((or_fail (act host a) f >> rest) before t)
  unfolding act on_error ◌>>=◌
  Arrives-step all a f rest before t k next h = ground (arith, k h, next h)

  Arrives-start :
      (f : Error → Error) (all : List Action) (t : Trace)
      → Arrives all (or_fail (act host start) f all t)
  unfolding act on_error
  Arrives-start f all t h = ground arith

  finish-Arrives :
      (before : List Action) (t : Trace)
      → Arrives
          (add_readyz_check ∷ add_healthz_check ∷ set_up_node_monitor ∷ before)
          (finish host before t)
  unfolding finish
  finish-Arrives before t =
      Arrives-step _ _ _ _ _ t (λ h. ground (arith, h))
        (Arrives-step _ _ _ _ _ t (λ h. ground (arith, h))
          (Arrives-step _ _ _ _ _ t (λ h. ground (arith, h)) (Arrives-start _ _ t)))

  webhook-Arrives :
      (scheme : List Kind) (webhooks : Bool) (flags : Flags) (f : Error → Error) (t : Trace)
      → let before =
          set_up_daemon_set
          ∷ set_up_migration
          ∷ new_manager (options scheme flags)
          ∷ get_config
          ∷ [] in
        Arrives
          (registered scheme flags webhooks)
          ((when webhooks (or_fail (act host set_up_webhook) f) >> finish host) before t)
  unfolding ◌>>=◌
  webhook-Arrives scheme true flags f t =
      Arrives-step _ _ _ _ _ t (λ h. ground (arith, h)) (finish-Arrives _ t)
  webhook-Arrives scheme false flags f t = finish-Arrives _ t

  all_ok_rest :
      (a : Action) (more : List Action) → all_ok host (a ∷ more) ≡ true → all_ok host more ≡ true
  all_ok_rest a more h = ground (arith, h)

  earlier :
      (scheme : List Kind) (flags : Flags) (webhooks : Bool)
      → all_ok host (registered scheme flags webhooks) ≡ true
      → all_ok host (
          set_up_daemon_set
          ∷ set_up_migration
          ∷ new_manager (options scheme flags)
          ∷ get_config
          ∷ [])
        ≡ true
  earlier scheme flags true h =
      all_ok_rest _ _ (all_ok_rest _ _ (all_ok_rest _ _ (all_ok_rest _ _ h)))
  earlier scheme flags false h = all_ok_rest _ _ (all_ok_rest _ _ (all_ok_rest _ _ h))

  main-Arrives :
      (scheme : List Kind) (flags : Flags) (enable_webhooks : Bytes) (t : Trace)
      → Arrives
          (registered scheme flags (not (enable_webhooks =s codes "false")))
          (main host scheme flags enable_webhooks [] t)
  unfolding main
  main-Arrives scheme flags enable_webhooks t =
      let webhooks = not (enable_webhooks =s codes "false") in
      Arrives-step _ _ _ _ _ t (λ h. ground (arith, earlier scheme flags webhooks h))
        (Arrives-step _ _ _ _ _ t (λ h. ground (arith, earlier scheme flags webhooks h))
          (Arrives-step _ _ _ _ _ t (λ h. ground (arith, earlier scheme flags webhooks h))
            (Arrives-step _ _ _ _ _ t (λ h. ground (arith, earlier scheme flags webhooks h))
              (webhook-Arrives scheme webhooks flags _ t))))

-- Main comes to start the manager just if each call before that succeeds, and then it has made just
-- these, in this order: the manager with the flags' options, the controllers of the Migrations and of
-- the daemon set, the webhook unless ENABLE_WEBHOOKS is `false`, the controller of the nodes and the two
-- health checks.
pub main-starts :
    (host : Host) (scheme : List Kind) (flags : Flags) (enable_webhooks : Bytes) (t : Trace)
    → let before = registered scheme flags (not (enable_webhooks =s codes "false")) in
      let made = (main host scheme flags enable_webhooks [] t).globals in
      (starts made ≡ all_ok host before) × ((starts made ≡ false) ⊎ (made ≡ start ∷ before))
main-starts host scheme flags enable_webhooks t =
    let before = registered scheme flags (not (enable_webhooks =s codes "false")) in
    let made = (main host scheme flags enable_webhooks [] t).globals in
    elim (Bool-cases (starts made)) [
      | inl e ↦
          let (all_made, succeeded) = main-Leads host scheme flags enable_webhooks t e refl in
          (e ∙ sym succeeded, inr all_made)
      | inr e ↦ elim (Bool-cases (all_ok host before)) [
        | inr f ↦ (e ∙ sym f, inl e)
        | inl f ↦ absurd (cc (e, ap starts (main-Arrives host scheme flags enable_webhooks t f)))
      ]
    ]
