-- ===== src/Topology/Routing.antt =====
-- Which queue a message comes to: commands, replies and events.
use Prim.Native.String.{◌++◌ as append}
use modularis.Base.{
  str_eq_comm, All-append, lacks-append, ℕ, Bool, true, false, ◌&&◌, ◌||◌, String, List, [], ◌∷◌,
  ◌++◌, ◌≡◌, refl, ◌∙◌, ap, All, arith, str_eq, eq_refl, ◌==◌, lacks,
}
use modularis.Config.Load.{RabbitmqConfig, OnboardingFields}
use modularis.Topology.{
  Declaration, bind_queue, Instance, Service, gateway, onboarding, reply_key, events_queue, starts,
  deploy, is_bound, gateway_rpc_setup, gateway_events_setup, onboarding_rpc_setup,
  onboarding_command_setup,
}
use modularis.Topology.Keys.{reply_key-str_eq}

-- A topic exchange by AMQP's rule, on keys without the wildcards `*` and `#`: a message comes to the
-- queues that are bound with its very key, once the exchange and the queues are declared.
abbrev pub is_wildcard : ℕ → Bool
is_wildcard c = (c == 42) || (c == 35)

abbrev pub is_wildcard_free : Declaration → Bool
is_wildcard_free (bind_queue q e pattern) = lacks is_wildcard pattern
is_wildcard_free _ = true

abbrev pub IsTopicExact : (List Declaration → String → String → String → Bool) → Type 0
IsTopicExact delivers =
    (ds : List Declaration) (exchange key q : String)
    → All (λ d. is_wildcard_free d ≡ true) ds
    → delivers ds exchange key q ≡ is_bound q exchange key ds

is_bound-append :
    (q e k : String) (ds es : List Declaration)
    → is_bound q e k (ds ++ es) ≡ (is_bound q e k ds || is_bound q e k es)
unfolding is_bound
is_bound-append q e k [] es = refl
is_bound-append q e k (d ∷ ds) es = ground (arith, is_bound-append q e k ds es)

-- A process of that name and id.
abbrev pub is_process : Instance → Instance → Bool
is_process a i =
    str_eq i.service_name a.service_name && str_eq i.runtime_instance_id a.runtime_instance_id

abbrev pub takes_replies : Instance → String → Service × Instance → Bool
takes_replies a q (s, i) = str_eq i.reply_queue q && is_process a i

abbrev pub takes_commands : OnboardingFields → String → Service × Instance → Bool
takes_commands fields q (gateway, i) = false
takes_commands fields q (onboarding, i) = str_eq fields.command_queue q

abbrev pub takes_events : String → Service × Instance → Bool
takes_events q (gateway, i) = str_eq (events_queue i) q
takes_events q (onboarding, i) = false

abbrev pub any : {A : Type 0} → (A → Bool) → List A → Bool
any p [] = false
any p (x ∷ xs) = p x || any p xs

-- The three exchanges have different names.
pub record AreApart (config : RabbitmqConfig) : Type 0 where
  pub response_command : str_eq config.response_exchange config.command_exchange ≡ false
  pub response_event : str_eq config.response_exchange config.event_exchange ≡ false
  pub command_event : str_eq config.command_exchange config.event_exchange ≡ false

-- A service's name without a dot, and keys without a wildcard.
pub record IsNamed (i : Instance) : Type 0 where
  pub dotless : lacks (λ c. c == 46) i.service_name ≡ true
  pub exact_name : lacks is_wildcard i.service_name ≡ true
  pub exact_id : lacks is_wildcard i.runtime_instance_id ≡ true

module _ (config : RabbitmqConfig) (fields : OnboardingFields) (apart : AreApart config) where
  abbrev pub binds : String → String → String → Service × Instance → Bool
  binds q exchange key p = is_bound q exchange key (starts config fields p)

  apart_again :
      (str_eq config.command_exchange config.response_exchange ≡ false)
      × (str_eq config.event_exchange config.response_exchange ≡ false)
      × (str_eq config.event_exchange config.command_exchange ≡ false)
  apart_again = (
    str_eq_comm config.command_exchange config.response_exchange ∙ apart.response_command,
    str_eq_comm config.event_exchange config.response_exchange ∙ apart.response_event,
    str_eq_comm config.event_exchange config.command_exchange ∙ apart.command_event,
  )

  binds-response :
      (q key : String) (p : Service × Instance)
      → binds q config.response_exchange key p
        ≡ (str_eq p.1.reply_queue q && str_eq (reply_key p.1) key)
  unfolding gateway_rpc_setup gateway_events_setup onboarding_rpc_setup onboarding_command_setup
      is_bound
  binds-response q key (gateway, i) = ground (arith, apart_again, eq_refl config.response_exchange)
  binds-response q key (onboarding, i) =
      ground (arith, apart_again, eq_refl config.response_exchange)

  binds-command :
      (q : String) (p : Service × Instance)
      → binds q config.command_exchange "onboarding.account.create" p ≡ takes_commands fields q p
  unfolding gateway_rpc_setup gateway_events_setup onboarding_rpc_setup onboarding_command_setup
      is_bound
  binds-command q (gateway, i) = ground (arith, apart, apart_again)
  binds-command q (onboarding, i) = ground (arith, apart, eq_refl config.command_exchange)

  binds-payment :
      (q : String) (p : Service × Instance)
      → binds q config.event_exchange "payment.status-updated" p ≡ takes_events q p
  unfolding gateway_rpc_setup gateway_events_setup onboarding_rpc_setup onboarding_command_setup
      is_bound
  binds-payment q (gateway, i) = ground (arith, apart, eq_refl config.event_exchange)
  binds-payment q (onboarding, i) = ground (arith, apart)

  binds-premium :
      (q : String) (p : Service × Instance)
      → binds q config.event_exchange "user.premium-updated" p ≡ takes_events q p
  unfolding gateway_rpc_setup gateway_events_setup onboarding_rpc_setup onboarding_command_setup
      is_bound
  binds-premium q (gateway, i) = ground (arith, apart, eq_refl config.event_exchange)
  binds-premium q (onboarding, i) = ground (arith, apart)

  bound-deploy :
      (q exchange key : String) (takes : Service × Instance → Bool) (ps : List (Service × Instance))
      → All (λ p. binds q exchange key p ≡ takes p) ps
      → is_bound q exchange key (deploy config fields ps) ≡ any takes ps
  unfolding deploy is_bound
  bound-deploy q exchange key takes [] each = refl
  bound-deploy q exchange key takes (p ∷ ps) (first, each) =
      is_bound-append q exchange key (starts config fields p) (deploy config fields ps)
      ∙ ground (arith, first, bound-deploy q exchange key takes ps each)

  reply_key_exact : (i : Instance) → IsNamed i → lacks is_wildcard (reply_key i) ≡ true
  unfolding reply_key
  reply_key_exact i named =
      lacks-append is_wildcard i.service_name (append ".responses." i.runtime_instance_id)
        named.exact_name
        (lacks-append is_wildcard ".responses." i.runtime_instance_id refl named.exact_id)

  starts_exact :
      (p : Service × Instance)
      → IsNamed p.1
      → All (λ d. is_wildcard_free d ≡ true) (starts config fields p)
  unfolding gateway_rpc_setup gateway_events_setup onboarding_rpc_setup onboarding_command_setup
  starts_exact (gateway, i) named = ground (arith, reply_key_exact i named)
  starts_exact (onboarding, i) named = ground (arith, reply_key_exact i named)

  deploy_exact :
      (ps : List (Service × Instance))
      → All (λ p. IsNamed p.1) ps
      → All (λ d. is_wildcard_free d ≡ true) (deploy config fields ps)
  unfolding deploy
  deploy_exact [] named = tt
  deploy_exact (p ∷ ps) (first, named) =
      All-append (λ d. is_wildcard_free d ≡ true) (starts config fields p) (deploy config fields ps)
        (starts_exact p first) (deploy_exact ps named)

  each_process :
      {P : Service × Instance → Type 0}
      → ((p : Service × Instance) → IsNamed p.1 → P p)
      → (ps : List (Service × Instance)) → All (λ p. IsNamed p.1) ps
      → All P ps
  each_process h [] named = tt
  each_process h (p ∷ ps) (first, named) = (h p first, each_process h ps named)

  -- With three exchanges of different names, a broker that follows AMQP's rule, and processes whose
  -- services have names without a dot, none of whose names and ids has a wildcard: a reply to the key of a process comes
  -- to the reply queues of the processes with that name and id, and to no other queue; a command
  -- comes to the command queue, if an onboarding service is there, and to no other; and an event of
  -- either kind to the event queues of the gateways, and to no other.
  pub deploy-deliveries :
      (delivers : List Declaration → String → String → String → Bool)
      → IsTopicExact delivers
      → (ps : List (Service × Instance)) (a : Instance) (q : String) → All (λ p. IsNamed p.1) ps
      → IsNamed a
      → let ds = deploy config fields ps in
        (delivers ds config.response_exchange (reply_key a) q ≡ any (takes_replies a q) ps)
        × (delivers ds config.command_exchange "onboarding.account.create" q
            ≡ any (takes_commands fields q) ps)
        × (delivers ds config.event_exchange "payment.status-updated" q ≡ any (takes_events q) ps)
        × (delivers ds config.event_exchange "user.premium-updated" q ≡ any (takes_events q) ps)
  deploy-deliveries delivers exact ps a q named known =
      let ds = deploy config fields ps in
      let free = deploy_exact ps named in
      (
        exact ds config.response_exchange (reply_key a) q free
            ∙ bound-deploy q config.response_exchange (reply_key a) (takes_replies a q) ps (
                each_process
                  (λ p process.
                    binds-response q (reply_key a) p
                    ∙ ap (λ b. str_eq p.1.reply_queue q && b)
                        (reply_key-str_eq p.1 a process.dotless known.dotless))
                  ps named),
        exact ds config.command_exchange "onboarding.account.create" q free
            ∙ bound-deploy q config.command_exchange "onboarding.account.create"
                (takes_commands fields q) ps
                (each_process (λ p process. binds-command q p) ps named),
        exact ds config.event_exchange "payment.status-updated" q free
            ∙ bound-deploy q config.event_exchange "payment.status-updated" (takes_events q) ps
                (each_process (λ p process. binds-payment q p) ps named),
        exact ds config.event_exchange "user.premium-updated" q free
            ∙ bound-deploy q config.event_exchange "user.premium-updated" (takes_events q) ps
                (each_process (λ p process. binds-premium q p) ps named),
      )
