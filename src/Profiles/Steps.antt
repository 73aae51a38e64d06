-- ===== src/Profiles/Steps.antt =====
-- What the profile service does to the registry, and what it keeps.
use multi_agent_aircraft_dev.Base.{
  String, ◌≡◌, refl, ap, subst, ◌⊎◌, inl, inr, true, not, ◌&&◌, ◌||◌, none, some, Bool-cases, List,
  [], ◌∷◌, arith, ◌==◌, string_eq, pair_eq, if◌then◌else◌, contains,
}
use multi_agent_aircraft_dev.Dict.{lookup}
use multi_agent_aircraft_dev.Errors.{Result, ok, err, ◌>>=◌, Result-cases, bind-ok}
use multi_agent_aircraft_dev.Gateway.World.{Actor}
use multi_agent_aircraft_dev.Profiles.{StandardProfile}
use multi_agent_aircraft_dev.Profiles.Registry.{ProfileStore}
use multi_agent_aircraft_dev.Profiles.Engine.{ProfileError, validate_profile, compose}
use multi_agent_aircraft_dev.Profiles.Registration.{Key, key_of, ProfileRegistry}
use multi_agent_aircraft_dev.Profiles.Service.{
  ProfileWorld, lacks_right, record_identity, finish, governed, registering, register, activate,
  deactivating, deactivate, composing, compose_profiles,
}

-- The steps of the registered and of the active profiles.
pub data Step (s s' : ProfileStore) : Type 0 where
  keeps : s' ≡ s → Step s s'
  registers :
      (p : StandardProfile)
      → validate_profile p ≡ ok tt
      → (lookup (key_of p) s.profiles ≡ none) ⊎ (lookup (key_of p) s.profiles ≡ some p)
      → ((j : Key) → lookup j s'.profiles ≡ (if key_of p == j then some p else lookup j s.profiles))
      → ((j : Key) → contains j s'.active ≡ true → contains j s.active ≡ true)
      → Step s s'
  activates :
      (k : Key) (p : StandardProfile)
      → lookup k s.profiles ≡ some p
      → s'.profiles ≡ s.profiles
      → ((j : Key) → contains j s'.active ≡ (contains j s.active || k == j))
      → Step s s'
  deactivates :
      (k : Key)
      → s'.profiles ≡ s.profiles
      → ((j : Key) → contains j s'.active ≡ (contains j s.active && not (k == j)))
      → Step s s'

pub data ProfileCall : Type 0 where
  register_call : StandardProfile → ProfileCall
  activate_call deactivate_call : Key → ProfileCall
  compose_call : List StandardProfile → Key → String → ProfileCall

abbrev pub no_value : ProfileStore → Result ProfileError (Unit {0} × ProfileStore)
no_value s = ok (tt, s)

abbrev the_value :
    StandardProfile → ProfileStore → Result ProfileError (StandardProfile × ProfileStore)
the_value p s = ok (p, s)

second :
    StandardProfile
    → ProfileStore
    → Result ProfileError (StandardProfile × ProfileStore)
    → ProfileStore
second c s (ok p) = p.1
second c s (err e) = s

module _ (message : ProfileError → String) (registry : ProfileRegistry)
    (json : List String → String) where
  unfoldable pub perform : Actor → ProfileCall → ProfileWorld → ProfileWorld
  unfolding register activate deactivate compose_profiles
  perform actor (register_call p) w = (register message registry actor p w).1
  perform actor (activate_call k) w = (activate message registry actor k w).1
  perform actor (deactivate_call k) w = (deactivate message registry actor k w).1
  perform actor (compose_call ps k name) w =
      (compose_profiles message registry json actor ps k name w).1

  unfoldable pub perform_all : List (Actor × ProfileCall) → ProfileWorld → ProfileWorld
  unfolding perform
  perform_all [] w = w
  perform_all ((actor, call) ∷ calls) w = perform_all calls (perform actor call w)

  -- a governed operation keeps the store or leaves it as its body does
  governed-Step :
      {A : Type 0} (actor : Actor) (action : String) (key : Key)
      (body : ProfileStore → Result ProfileError (A × ProfileStore)) (w : ProfileWorld)
      → ((a : A) (s : ProfileStore) → body w.store ≡ ok (a, s) → Step w.store s)
      → Step w.store ((governed message actor action key body w).1).store
  unfolding governed finish record_identity
  governed-Step actor action key body w steps = elim (Bool-cases (lacks_right actor)) [
    | inl t ↦ keeps (rw (t, governed) refl)
    | inr f ↦ elim (Result-cases (body w.store)) [
      | inr (e, failed) ↦ keeps (rw (f, governed) (rw (failed, finish) refl))
      | inl ((a, s), done) ↦ rw (f, governed) (rw (done, finish) (steps a s done))
    ]
  ]

  registering-Step :
      (p : StandardProfile) (s s' : ProfileStore) → registry.register p s ≡ ok s' → Step s s'
  registering-Step p s s' h =
      let (valid, before, at, active) = registry.register_stores p s s' h in
      registers p valid before at active

  pub perform-Step :
      (actor : Actor) (call : ProfileCall) (w : ProfileWorld)
      → Step w.store (perform actor call w).store
  unfolding perform register activate deactivate compose_profiles registering composing second
  perform-Step actor (register_call p) w =
      governed-Step actor "register_profile" (key_of p) (registering message registry p) w (λ a s h.
        let (_, _, rest) =
          bind-ok (validate_profile p) (λ _. registry.register p w.store >>= no_value) h in
        let (next, made, last) = bind-ok (registry.register p w.store) no_value rest in
        let same : next ≡ s = ground arith in
        subst (Step w.store) same (registering-Step p w.store next made))
  perform-Step actor (activate_call k) w =
      governed-Step actor "activate_profile" k (registry.activate k) w (λ p s h.
        let (found, _, same, marks) = registry.activate_marks k w.store p s h in
        activates k p found same marks)
  perform-Step actor (deactivate_call k) w =
      governed-Step actor "deactivate_profile" k (deactivating message registry k) w (λ a s h.
        let (next, made, last) = bind-ok (registry.deactivate k w.store) no_value h in
        let same : next ≡ s = ground arith in
        let (profiles, unmarks) = registry.deactivate_unmarks k w.store next made in
        subst (Step w.store) same (deactivates k profiles unmarks))
  perform-Step actor (compose_call ps k name) w =
      governed-Step actor "compose_profile" k (composing message registry json ps k name) w
        (λ p s h.
          let (c, composed, rest) =
            bind-ok (compose json ps k.0 k.1 name)
              (λ c. registry.register c w.store >>= the_value c) h in
          let (next, made, last) = bind-ok (registry.register c w.store) (the_value c) rest in
          let same : next ≡ s = ap (second c w.store) last in
          subst (Step w.store) same (registering-Step c w.store next made))
