-- ===== src/Loader/Configuration/Accepted.antt =====
-- Which saved states a resumed builder accepts: those of a loader with its own configuration.
use mathlib.Core.Bool.{true≢false}
use rust_torch.Base.{
  none, some, if◌then◌else◌, arith, ◌==◌, ℕ, String, ◌≡◌, refl, sym, ap, ◌∙◌, subst, Bool, true,
  false, ◌&&◌, not, Bool-cases, inl, inr,
}
use rust_torch.Error.{RustTorchError}
use rust_torch.Outcome.{Outcome, ok, ◌>>=◌, ok_or, >>=-eq-ok}
use rust_torch.Storage.{Allocator, try_vec, usize_size}
use rust_torch.Sampler.Validate.{validate_positive, validate_batch_size}
use rust_torch.Loader.Configuration.Valid.{
  passed-then, passed, IsConsistent, validate_configuration-IsConsistent,
}
use rust_torch.Loader.Configuration.{
  ExplicitArguments, validate_configuration, validate_exact_builder, resolve_pin_request,
  PinMemoryStatus, BuilderConfiguration, PlanCheckpointIdentity, LoaderConfiguration, Platform,
  CheckpointPinRequest, CheckpointPinStatus, validate_distributed_rank, checkpoint_pin_request,
  checkpoint_pin_status, configuration_of, checkpoint_configuration,
}
use rust_torch.Loader.Configuration.Comparison.{
  Comparison, numbers, flags, texts, options, requests, statuses,
}
use rust_torch.Loader.Configuration.Envelope.{
  LoaderState, loader_state_schema_version, task_rng_derivation_version,
  worker_seed_derivation_version, require_checkpoint_equal, then_some,
  validate_static_loader_state_envelope, validate_plan_loader_state_envelope, resume_envelope,
  resume_checks,
}

module _ {A : Type 0} (c : Comparison A) (field : String) where
  require-eq : (a b : A) → require_checkpoint_equal c field a b ≡ ok tt → a ≡ b
  unfolding require_checkpoint_equal
  require-eq a b h = elim (Bool-cases (c.test a b)) [
    | inl t ↦ c.eq_of_test a b t
    | inr f ↦ absurd (true≢false (sym (ap not f) ∙ passed _ _ h))
  ]

  require-ok : (a b : A) → a ≡ b → require_checkpoint_equal c field a b ≡ ok tt
  unfolding require_checkpoint_equal
  require-ok a b e =
      let t : c.test a b ≡ true = subst (λ x. c.test a x ≡ true) e (c.test_refl a) in
      rw (require_checkpoint_equal, t)

  -- A test that is passed, and the tests after it.
  require-then :
      {B : Type 0} (a b : A) (rest : Outcome RustTorchError B) {x : B}
      → (require_checkpoint_equal c field a b >>= λ _. rest) ≡ ok x
      → (a ≡ b) × (rest ≡ ok x)
  require-then a b rest h =
      let (u, e, r) = >>=-eq-ok (require_checkpoint_equal c field a b) (λ _. rest) h in
      (require-eq a b e, r)

-- The tests against the plan.
record IsPlanned (saved expected : LoaderConfiguration) : Type 0 where
  replicas : saved.replicas ≡ expected.replicas
  shuffle : saved.distributed_shuffle ≡ expected.distributed_shuffle
  seed : saved.distributed_seed ≡ expected.distributed_seed
  tail : saved.distributed_drop_last ≡ expected.distributed_drop_last
  kind : saved.sampler_kind ≡ expected.sampler_kind

same-fields :
    (a b : LoaderConfiguration)
    → a.batch_size ≡ b.batch_size
    → a.drop_last ≡ b.drop_last
    → a.workers ≡ b.workers
    → a.prefetch_factor ≡ b.prefetch_factor
    → a.in_order ≡ b.in_order
    → a.loader_seed ≡ b.loader_seed
    → a.rank ≡ b.rank
    → IsPlanned a b
    → a.pin_request ≡ b.pin_request
    → a.pin_status ≡ b.pin_status
    → a ≡ b
same-fields a b h1 h2 h3 h4 h5 h6 h7 p h8 h9 = λ i. record {
  batch_size = h1 i;
  drop_last = h2 i;
  workers = h3 i;
  prefetch_factor = h4 i;
  in_order = h5 i;
  loader_seed = h6 i;
  rank = h7 i;
  replicas = p.replicas i;
  distributed_shuffle = p.shuffle i;
  distributed_seed = p.seed i;
  distributed_drop_last = p.tail i;
  sampler_kind = p.kind i;
  pin_request = h8 i;
  pin_status = h9 i;
}

module _ {Device Duration D S T C : Type 0} (platform : Platform Device Duration) where
  -- The tests that need no plan.
  record IsStatic (state : LoaderState D S T C) (identity : String)
      (builder : BuilderConfiguration Device Duration) (pin_status : PinMemoryStatus Device)
      (automatic : Bool) (generation : ℕ) : Type 0 where
    request : CheckpointPinRequest
    status : CheckpointPinStatus
    has_request : checkpoint_pin_request platform builder.pin_memory ≡ ok request
    has_status : checkpoint_pin_status platform pin_status ≡ ok status
    schema : state.schema_version ≡ loader_state_schema_version
    dataset : state.dataset_identity ≡ identity
    generation_is : state.iterator_generation ≡ generation
    rng : state.rng_derivation_version ≡ task_rng_derivation_version
    seeds : state.worker_seed_derivation_version ≡ worker_seed_derivation_version
    batch_size : state.configuration.batch_size ≡ then_some automatic builder.batch_size
    drop_last : state.configuration.drop_last ≡ (automatic && builder.drop_last)
    workers : state.configuration.workers ≡ builder.workers
    prefetch : state.configuration.prefetch_factor ≡ builder.prefetch_factor
    order : state.configuration.in_order ≡ builder.ordered
    loader_seed : state.configuration.loader_seed ≡ builder.loader_seed
    rank : state.configuration.rank ≡ builder.rank
    same_request : state.configuration.pin_request ≡ request
    same_status : state.configuration.pin_status ≡ status

  validate-IsStatic :
      (state : LoaderState D S T C) (identity : String)
      (builder : BuilderConfiguration Device Duration) (pin_status : PinMemoryStatus Device)
      (automatic : Bool) (generation : ℕ)
      → validate_static_loader_state_envelope platform state identity builder pin_status automatic
          generation
        ≡ ok tt
      → IsStatic state identity builder pin_status automatic generation
  unfolding validate_static_loader_state_envelope
  validate-IsStatic state identity builder pin_status automatic generation h0 =
      let (request, e1, h1) = >>=-eq-ok (checkpoint_pin_request platform builder.pin_memory) _ h0 in
      let (status, e2, h2) = >>=-eq-ok (checkpoint_pin_status platform pin_status) _ h1 in
      let (a1, r1) = require-then numbers _ _ _ _ h2 in
      let (a2, r2) = require-then texts _ _ _ _ r1 in
      let (a3, r3) = require-then numbers _ _ _ _ r2 in
      let (a4, r4) = require-then numbers _ _ _ _ r3 in
      let (a5, r5) = require-then numbers _ _ _ _ r4 in
      let (a6, r6) = require-then (options numbers) _ _ _ _ r5 in
      let (a7, r7) = require-then flags _ _ _ _ r6 in
      let (a8, r8) = require-then numbers _ _ _ _ r7 in
      let (a9, r9) = require-then (options numbers) _ _ _ _ r8 in
      let (a10, r10) = require-then flags _ _ _ _ r9 in
      let (a11, r11) = require-then numbers _ _ _ _ r10 in
      let (a12, r12) = require-then numbers _ _ _ _ r11 in
      let (a13, r13) = require-then requests _ _ _ _ r12 in
      record {
        request = request;
        status = status;
        has_request = e1;
        has_status = e2;
        schema = a1;
        dataset = a2;
        generation_is = a3;
        rng = a4;
        seeds = a5;
        batch_size = a6;
        drop_last = a7;
        workers = a8;
        prefetch = a9;
        order = a10;
        loader_seed = a11;
        rank = a12;
        same_request = a13;
        same_status = require-eq statuses _ _ _ r13;
      }

  validate-IsPlanned :
      (state : LoaderState D S T C) (expected : LoaderConfiguration)
      → validate_plan_loader_state_envelope platform state expected ≡ ok tt
      → IsPlanned state.configuration expected
  unfolding validate_plan_loader_state_envelope
  validate-IsPlanned state expected h0 =
      let (a1, r1) = require-then numbers _ _ _ _ h0 in
      let (a2, r2) = require-then (options flags) _ _ _ _ r1 in
      let (a3, r3) = require-then (options numbers) _ _ _ _ r2 in
      let (a4, r4) = require-then (options flags) _ _ _ _ r3 in
      record { replicas = a1; shuffle = a2; seed = a3; tail = a4; kind = require-eq texts _ _ _ r4 }

  -- A state of the same loader: its versions, its dataset, and every setting.
  pub record IsSameLoader (state : LoaderState D S T C) (identity : String)
      (expected : LoaderConfiguration) : Type 0 where
    pub schema : state.schema_version ≡ loader_state_schema_version
    pub dataset : state.dataset_identity ≡ identity
    pub serial : state.iterator_generation ≡ 0
    pub rng : state.rng_derivation_version ≡ task_rng_derivation_version
    pub seeds : state.worker_seed_derivation_version ≡ worker_seed_derivation_version
    pub configuration : state.configuration ≡ expected

  module _ (state : LoaderState D S T C) (identity : String)
      (builder : BuilderConfiguration Device Duration) (pin_status : PinMemoryStatus Device)
      (automatic : Bool) (plan : PlanCheckpointIdentity)
      (size : plan.batch_size ≡ then_some automatic builder.batch_size)
      (tail : plan.drop_last ≡ (automatic && builder.drop_last))
      (ordered : builder.ordered ≡ true) where
    same-configuration :
        (expected : LoaderConfiguration)
        → checkpoint_configuration platform plan builder pin_status ≡ ok expected
        → IsStatic state identity builder pin_status automatic 0
        → IsPlanned state.configuration expected
        → state.configuration ≡ expected
    unfolding checkpoint_configuration
    same-configuration expected h s p =
        same-fields _ expected (s.batch_size ∙ sym size ∙ made (λ q. q.batch_size))
          (s.drop_last ∙ sym tail ∙ made (λ q. q.drop_last)) (s.workers ∙ made (λ q. q.workers))
          (s.prefetch ∙ made (λ q. q.prefetch_factor)) (s.order ∙ ordered ∙ made (λ q. q.in_order))
          (s.loader_seed ∙ made (λ q. q.loader_seed)) (s.rank ∙ made (λ q. q.rank)) p
          (s.same_request ∙ made (λ q. q.pin_request)) (s.same_status ∙ made (λ q. q.pin_status))
      where
        built : LoaderConfiguration
        built = configuration_of platform plan builder s.request s.status

        is_built : checkpoint_configuration platform plan builder pin_status ≡ ok built
        is_built = rw (checkpoint_configuration, s.has_request, s.has_status)

        made : {A : Type 0} (f : LoaderConfiguration → A) → f built ≡ f expected
        made f = ap f (cc (sym is_built ∙ h))

  resume_envelope-IsSameLoader :
      (state : LoaderState D S T C) (identity : String)
      (builder : BuilderConfiguration Device Duration) (pin_status : PinMemoryStatus Device)
      (automatic : Bool) (plan : PlanCheckpointIdentity) {expected : LoaderConfiguration}
      → plan.batch_size ≡ then_some automatic builder.batch_size
      → plan.drop_last ≡ (automatic && builder.drop_last)
      → builder.ordered ≡ true
      → resume_envelope platform state identity builder pin_status automatic (ok plan) ≡ ok expected
      → IsSameLoader state identity expected
  unfolding resume_envelope
  resume_envelope-IsSameLoader state identity builder pin_status automatic plan {expected} size tail
        ordered h0 =
      let (u1, e1, h1) =
        >>=-eq-ok
          (validate_static_loader_state_envelope platform state identity builder pin_status
            automatic 0)
          _ h0 in
      let (u2, e2, h2) = >>=-eq-ok (validate_distributed_rank platform plan builder.rank) _ h1 in
      let (made, e3, h3) =
        >>=-eq-ok (checkpoint_configuration platform plan builder pin_status) _ h2 in
      let (u4, e4, h4) = >>=-eq-ok (validate_plan_loader_state_envelope platform state made) _ h3 in
      let s = validate-IsStatic state identity builder pin_status automatic 0 e1 in
      let made_is : made ≡ expected = cc h4 in
      record {
        schema = s.schema;
        dataset = s.dataset;
        serial = s.generation_is;
        rng = s.rng;
        seeds = s.seeds;
        configuration =
            same-configuration state identity builder pin_status automatic plan size tail ordered
              made e3 s (validate-IsPlanned state made e4)
            ∙ made_is;
      }

ok_or-same :
    (b : Bool) (n : ℕ) (e : RustTorchError) {size : ℕ}
    → ok_or (if b then none else some n) e ≡ ok size
    → size ≡ n
ok_or-same true n e h = cc
ok_or-same false n e h = cc

validate_batch_size-same :
    (alloc : Allocator) (n : ℕ) {size : ℕ} → validate_batch_size alloc n ≡ ok size → size ≡ n
unfolding validate_batch_size
validate_batch_size-same alloc n h =
    let (u, e1, h1) = >>=-eq-ok (validate_positive n "batch_size") _ h in
    let (v, e2, h2) = >>=-eq-ok (try_vec {A = ℕ} alloc usize_size n "batch_size") _ h1 in
    ok_or-same (n == 0) n _ h2

-- What an exact builder has.
pub record IsExact {Device Duration : Type 0} (platform : Platform Device Duration)
    (builder : BuilderConfiguration Device Duration) (given : ExplicitArguments) : Type 0 where
  pub consistent : IsConsistent platform builder given
  pub serial : builder.workers ≡ 0
  pub ordered : builder.ordered ≡ true

builder-IsExact :
    {Device Duration : Type 0} (platform : Platform Device Duration)
    (builder : BuilderConfiguration Device Duration) (given : ExplicitArguments) (identity : String)
    → validate_exact_builder platform builder given identity ≡ ok tt
    → IsExact platform builder given
unfolding validate_exact_builder
builder-IsExact platform builder given identity h0 =
    let (u1, e1, h1) = >>=-eq-ok (validate_configuration platform builder given) _ h0 in
    let (nonempty, h2) = passed-then _ _ _ h1 in
    let (w, h3) = passed-then (not (builder.workers == 0)) _ _ h2 in
    let o : not builder.ordered ≡ false = passed _ _ h3 in
    record {
      consistent = (validate_configuration-IsConsistent platform builder given).0 e1;
      serial = ground (arith, w);
      ordered = ground (arith, o);
    }

-- What a plan makes of a saved sampler has the batch options that it is given, for a plan of automatic
-- batches, and none for another.
pub record IsPlan (automatic : Bool)
    (identity_from_state : ℕ → Bool → Outcome RustTorchError PlanCheckpointIdentity) : Type 0 where
  pub size :
      (n : ℕ) (tail : Bool) (plan : PlanCheckpointIdentity)
      → identity_from_state n tail ≡ ok plan
      → plan.batch_size ≡ then_some automatic n
  pub last :
      (n : ℕ) (tail : Bool) (plan : PlanCheckpointIdentity)
      → identity_from_state n tail ≡ ok plan
      → plan.drop_last ≡ (automatic && tail)

-- A resumed builder goes on to the parts of a saved state only when its own options are consistent,
-- serial and in order, and the state has been saved for the same dataset, by the same versions, by a
-- loader with the same configuration in every field.
pub resume_checks-IsSameLoader :
    {Device Duration D S T C : Type 0} (platform : Platform Device Duration) (alloc : Allocator)
    (state : LoaderState D S T C) (identity : String)
    (builder : BuilderConfiguration Device Duration) (given : ExplicitArguments) (automatic : Bool)
    (identity_from_state : ℕ → Bool → Outcome RustTorchError PlanCheckpointIdentity)
    {expected : LoaderConfiguration}
    → IsPlan automatic identity_from_state
    → resume_checks platform alloc state identity builder given automatic identity_from_state
      ≡ ok expected
    → IsExact platform builder given × IsSameLoader platform state identity expected
unfolding resume_checks resume_envelope
resume_checks-IsSameLoader platform alloc state identity builder given automatic identity_from_state
      {expected} plans h0 =
    let (u1, e1, h1) = >>=-eq-ok (validate_exact_builder platform builder given identity) _ h0 in
    let (status, e2, h2) = >>=-eq-ok (resolve_pin_request platform builder.pin_memory) _ h1 in
    let (size, e3, h3) = >>=-eq-ok (validate_batch_size alloc builder.batch_size) _ h2 in
    let (u4, e4, h4) =
      >>=-eq-ok
        (validate_static_loader_state_envelope platform state identity builder status automatic 0) _
        h3 in
    let (plan, e5, h5) = >>=-eq-ok (identity_from_state size builder.drop_last) _ h4 in
    let exact = builder-IsExact platform builder given identity e1 in
    (
      exact,
      resume_envelope-IsSameLoader platform state identity builder status automatic plan
          (plans.size size builder.drop_last plan e5
            ∙ ap (then_some automatic) (validate_batch_size-same alloc builder.batch_size e3))
          (plans.last size builder.drop_last plan e5) exact.ordered
          (subst
            (λ o. resume_envelope platform state identity builder status automatic o ≡ ok expected)
            e5 h3),
    )

bind-ok :
    {A B : Type 0} (m : Outcome RustTorchError A) (f : A → Outcome RustTorchError B) {a : A}
    {r : Outcome RustTorchError B}
    → m ≡ ok a
    → f a ≡ r
    → (m >>= f) ≡ r
bind-ok m f e h = rw e h

module _ {A B : Type 0} (c : Comparison A) (field : String) where
  then-require :
      (a b : A) (rest : Outcome RustTorchError B) {r : Outcome RustTorchError B}
      → a ≡ b
      → rest ≡ r
      → (require_checkpoint_equal c field a b >>= λ _. rest) ≡ r
  then-require a b rest e h = bind-ok _ (λ _. rest) (require-ok c field a b e) h

module _ {Device Duration D S T C : Type 0} (platform : Platform Device Duration)
    (state : LoaderState D S T C) (identity : String)
    (builder : BuilderConfiguration Device Duration) (pin_status : PinMemoryStatus Device)
    (automatic : Bool) (plan : PlanCheckpointIdentity) where
  -- A saved state of the same dataset, the same versions and the builder's own configuration passes the
  -- tests of a resumed builder before those of the parts, when the plan has the builder's batch options
  -- and a rank that agrees with it, and the builder delivers in order.
  pub resume_envelope-accepts :
      {expected : LoaderConfiguration}
      → plan.batch_size ≡ then_some automatic builder.batch_size
      → plan.drop_last ≡ (automatic && builder.drop_last)
      → builder.ordered ≡ true
      → validate_distributed_rank platform plan builder.rank ≡ ok tt
      → checkpoint_configuration platform plan builder pin_status ≡ ok expected
      → IsSameLoader platform state identity expected
      → resume_envelope platform state identity builder pin_status automatic (ok plan) ≡ ok expected
  unfolding resume_envelope validate_static_loader_state_envelope
      validate_plan_loader_state_envelope checkpoint_configuration
  resume_envelope-accepts {expected} size tail ordered ranked h same =
      let (request, e1, h1) = >>=-eq-ok (checkpoint_pin_request platform builder.pin_memory) _ h in
      let (status, e2, h2) = >>=-eq-ok (checkpoint_pin_status platform pin_status) _ h1 in
      let e : state.configuration ≡ configuration_of platform plan builder request status =
        same.configuration ∙ sym (cc h2) in
      let accepted : validate_static_loader_state_envelope platform state identity builder
            pin_status automatic 0
          ≡ ok tt =
        bind-ok _ _ e1 (
          bind-ok _ _ e2 (
            then-require numbers _ _ _ _ same.schema (
              then-require texts _ _ _ _ same.dataset (
                then-require numbers _ _ _ _ same.serial (
                  then-require numbers _ _ _ _ same.rng (
                    then-require numbers _ _ _ _ same.seeds (
                      then-require (options numbers) _ _ _ _ (ap (λ q. q.batch_size) e ∙ size) (
                        then-require flags _ _ _ _ (ap (λ q. q.drop_last) e ∙ tail) (
                          then-require numbers _ _ _ _ (ap (λ q. q.workers) e) (
                            then-require (options numbers) _ _ _ _ (ap (λ q. q.prefetch_factor) e) (
                              then-require flags _ _ _ _ (ap (λ q. q.in_order) e ∙ sym ordered) (
                                then-require numbers _ _ _ _ (ap (λ q. q.loader_seed) e) (
                                  then-require numbers _ _ _ _ (ap (λ q. q.rank) e) (
                                    then-require requests _ _ _ _ (ap (λ q. q.pin_request) e) (
                                      require-ok statuses _ _ _
                                        (ap (λ q. q.pin_status) e)))))))))))))))) in
      let planned : validate_plan_loader_state_envelope platform state expected ≡ ok tt =
        then-require numbers _ _ _ _ (ap (λ q. q.replicas) same.configuration) (
          then-require (options flags) _ _ _ _ (ap (λ q. q.distributed_shuffle) same.configuration)
            (then-require (options numbers) _ _ _ _
              (ap (λ q. q.distributed_seed) same.configuration)
              (then-require (options flags) _ _ _ _
                (ap (λ q. q.distributed_drop_last) same.configuration)
                (require-ok texts _ _ _ (ap (λ q. q.sampler_kind) same.configuration))))) in
      bind-ok _ _ accepted (bind-ok _ _ ranked (bind-ok _ _ h (bind-ok _ _ planned refl)))
