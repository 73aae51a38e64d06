-- ===== src/Profiles/Governed.antt =====
-- What the governance of profiles keeps, whatever calls are made.
use multi_agent_aircraft_dev.Base.{
  ◌≢◌, String, ◌≡◌, refl, sym, ap, subst, ◌∙◌, ◌⊎◌, inl, inr, true, ◌||◌, none, some, Bool-cases,
  List, [], ◌∷◌, arith, ◌==◌, ==_iff, ==_self, string_eq, pair_eq, if◌then◌else◌, contains,
}
use multi_agent_aircraft_dev.Dict.{lookup}
use multi_agent_aircraft_dev.Errors.{Result, ok, err, ◌>>=◌, bind-ok}
use multi_agent_aircraft_dev.ChangeControl.{l3_approve, level_eq}
use multi_agent_aircraft_dev.Audit.{ai, actor_type_eq}
use multi_agent_aircraft_dev.Gateway.World.{Actor}
use multi_agent_aircraft_dev.Profiles.{StandardProfile}
use multi_agent_aircraft_dev.Profiles.Registry.{ProfileStore, get_profile, is_active}
use multi_agent_aircraft_dev.Profiles.Engine.{ProfileError, validate_profile}
use multi_agent_aircraft_dev.Profiles.Registration.{Key, key_of, ProfileRegistry}
use multi_agent_aircraft_dev.Profiles.Service.{
  ProfileWorld, lacks_right, record_identity, finish, governed, registering, register, activate,
  deactivate, compose_profiles,
}
use multi_agent_aircraft_dev.Profiles.Steps.{
  no_value, Step, keeps, registers, activates, deactivates, ProfileCall, register_call,
  activate_call, deactivate_call, compose_call, perform, perform_all, perform-Step,
}

-- Every registered profile stands under its own name and version and is valid, and every active one is
-- registered.
pub record IsSound (s : ProfileStore) : Type 0 where
  pub named : (k : Key) (p : StandardProfile) → lookup k s.profiles ≡ some p → key_of p ≡ k
  pub valid :
      (k : Key) (p : StandardProfile) → lookup k s.profiles ≡ some p → validate_profile p ≡ ok tt
  pub active_known :
      (k : Key)
      → contains k s.active ≡ true
      → (p : StandardProfile) × (lookup k s.profiles ≡ some p)

-- a property of each registered profile, after a registration
written {ℓ} :
    (P : Key → StandardProfile → Type ℓ) (p : StandardProfile) (s s' : ProfileStore)
    → ((j : Key) → lookup j s'.profiles ≡ (if key_of p == j then some p else lookup j s.profiles))
    → P (key_of p) p
    → ((j : Key) (q : StandardProfile) → lookup j s.profiles ≡ some q → P j q)
    → (j : Key) (q : StandardProfile) → lookup j s'.profiles ≡ some q
    → P j q
written P p s s' at new old j q h = elim (Bool-cases (key_of p == j)) [
  | inl t ↦
      let here : lookup j s'.profiles ≡ some p =
        at j ∙ ap (λ b. if b then some p else lookup j s.profiles) t in
      let same : p ≡ q = ground arith in
      subst (P j) same (subst (λ k. P k p) ((==_iff (key_of p) j).0 t) new)
  | inr f ↦ old j q (sym (at j ∙ ap (λ b. if b then some p else lookup j s.profiles) f) ∙ h)
]

-- what was registered is still registered, unchanged
Step-keeps :
    (s s' : ProfileStore) (k : Key) (p : StandardProfile)
    → Step s s'
    → lookup k s.profiles ≡ some p
    → lookup k s'.profiles ≡ some p
Step-keeps s s' k p (keeps same) h = rw same h
Step-keeps s s' k p (registers q valid before at _) h = elim (Bool-cases (key_of q == k)) [
  | inl t ↦
      let e : key_of q ≡ k = (==_iff (key_of q) k).0 t in
      let there =
        subst (λ j. (lookup j s.profiles ≡ none) ⊎ (lookup j s.profiles ≡ some q)) e before in
      elim there [
        | inl absent ↦ absurd (cc (absent, h))
        | inr same ↦ at k ∙ ap (λ b. if b then some q else lookup k s.profiles) t ∙ sym same ∙ h
      ]
  | inr f ↦ at k ∙ ap (λ b. if b then some q else lookup k s.profiles) f ∙ h
]
Step-keeps s s' k p (activates j q _ same _) h = ap (lookup k) same ∙ h
Step-keeps s s' k p (deactivates j same _) h = ap (lookup k) same ∙ h

Step-IsSound : (s s' : ProfileStore) → Step s s' → IsSound s → IsSound s'
Step-IsSound s s' (keeps same) h = subst IsSound (sym same) h
Step-IsSound s s' (registers p valid before at active) h = record {
  named = written (λ k q. key_of q ≡ k) p s s' at refl h.named;
  valid = written (λ k q. validate_profile q ≡ ok tt) p s s' at valid h.valid;
  active_known = λ k m.
      let (q, found) = h.active_known k (active k m) in
      (q, Step-keeps s s' k q (registers p valid before at active) found);
}
Step-IsSound s s' (activates j p found same marks) h = record {
  named = λ k q l. h.named k q (sym (ap (lookup k) same) ∙ l);
  valid = λ k q l. h.valid k q (sym (ap (lookup k) same) ∙ l);
  active_known = λ k m. elim (Bool-cases (j == k)) [
    | inl t ↦
        (p, ap (lookup k) same ∙ subst (λ i. lookup i s.profiles ≡ some p) ((==_iff j k).0 t) found)
    | inr f ↦
        let (q, there) = h.active_known k (ground (arith, marks k)) in
        (q, ap (lookup k) same ∙ there)
  ];
}
Step-IsSound s s' (deactivates j same unmarks) h = record {
  named = λ k q l. h.named k q (sym (ap (lookup k) same) ∙ l);
  valid = λ k q l. h.valid k q (sym (ap (lookup k) same) ∙ l);
  active_known = λ k m.
      let (q, there) = h.active_known k (ground (arith, unmarks k)) in
      (q, ap (lookup k) same ∙ there);
}

module _ (message : ProfileError → String) {A : Type 0} where
  answered :
      (actor : Actor) (action : String) (key : Key) (w : ProfileWorld)
      (r : Result ProfileError (A × ProfileStore)) (a : A) (v : ProfileWorld)
      → finish message actor action key w r ≡ (ok a, v)
      → (s : ProfileStore) × (r ≡ ok (a, s)) × (v.store ≡ s)
  unfolding finish record_identity
  answered actor action key w (err e) a v h = absurd (ground arith)
  answered actor action key w (ok (b, s)) a v h =
      let same : b ≡ a = ground arith in (s, ap (λ x. ok (x, s)) same, ap (λ x. x.1.store) (sym h))

  -- a governed operation that returned has run its body
  governed-Returns :
      (actor : Actor) (action : String) (key : Key)
      (body : ProfileStore → Result ProfileError (A × ProfileStore)) (w : ProfileWorld) (a : A)
      (v : ProfileWorld)
      → governed message actor action key body w ≡ (ok a, v)
      → (s : ProfileStore) × (body w.store ≡ ok (a, s)) × (v.store ≡ s)
  unfolding governed
  governed-Returns actor action key body w a v h = elim (Bool-cases (lacks_right actor)) [
    | inl t ↦ absurd (ground arith)
    | inr f ↦ answered actor action key w (body w.store) a v (rw (f, governed) at h)
  ]

-- An actor without the right to govern profiles: an AI, or one at another level than L3.
abbrev pub MayNotGovern : Actor → Type 0
MayNotGovern actor = (actor.actor_type ≡ ai) ⊎ (actor.authorization_level ≢ l3_approve)

MayNotGovern-lacks : (actor : Actor) → MayNotGovern actor → lacks_right actor ≡ true
MayNotGovern-lacks actor h =
    ground (arith, ==_iff actor.actor_type ai, ==_iff actor.authorization_level l3_approve)

module _ (message : ProfileError → String) (registry : ProfileRegistry)
    (json : List String → String) where
  -- Whatever calls of the service are made, a sound registry stays sound: registered profiles are valid
  -- and stand under their own names, and active ones are registered.
  pub perform_all-IsSound :
      (calls : List (Actor × ProfileCall)) (w : ProfileWorld)
      → IsSound w.store
      → IsSound (perform_all message registry json calls w).store
  unfolding perform_all
  perform_all-IsSound [] w h = h
  perform_all-IsSound ((actor, call) ∷ calls) w h =
      let next = perform message registry json actor call w in
      perform_all-IsSound calls next
        (Step-IsSound w.store next.store (perform-Step message registry json actor call w) h)

  -- A profile that is registered is never replaced or removed.
  pub perform_all-immutable :
      (calls : List (Actor × ProfileCall)) (w : ProfileWorld) (k : Key) (p : StandardProfile)
      → lookup k w.store.profiles ≡ some p
      → lookup k (perform_all message registry json calls w).store.profiles ≡ some p
  unfolding perform_all
  perform_all-immutable [] w k p h = h
  perform_all-immutable ((actor, call) ∷ calls) w k p h =
      let next = perform message registry json actor call w in
      perform_all-immutable calls next k p
        (Step-keeps w.store next.store k p (perform-Step message registry json actor call w) h)

  -- An actor that is an AI or has another level than L3 changes nothing, the audit trail included.
  pub perform-refused :
      (actor : Actor) (call : ProfileCall) (w : ProfileWorld)
      → MayNotGovern actor
      → perform message registry json actor call w ≡ w
  unfolding perform register activate deactivate compose_profiles governed
  perform-refused actor (register_call p) w m =
      let h = MayNotGovern-lacks actor m in rw (h, perform, register, governed) refl
  perform-refused actor (activate_call k) w m =
      let h = MayNotGovern-lacks actor m in rw (h, perform, activate, governed) refl
  perform-refused actor (deactivate_call k) w m =
      let h = MayNotGovern-lacks actor m in rw (h, perform, deactivate, governed) refl
  perform-refused actor (compose_call ps k name) w m =
      let h = MayNotGovern-lacks actor m in rw (h, perform, compose_profiles, governed) refl

  some_injective : {x y : StandardProfile} → some x ≡ some y → x ≡ y
  some_injective h = ground arith

  registering-stores :
      (p : StandardProfile) (s s' : ProfileStore)
      → registering message registry p s ≡ ok (tt, s')
      → lookup (key_of p) s'.profiles ≡ some p
  unfolding registering
  registering-stores p s s' h =
      let (_, _, rest) = bind-ok (validate_profile p) (λ _. registry.register p s >>= no_value) h in
      let (next, made, last) = bind-ok (registry.register p s) no_value rest in
      let same : next ≡ s' = ground arith in
      let (_, _, at, _) = registry.register_stores p s next made in
      subst (λ x. lookup (key_of p) x.profiles ≡ some p) same
        (at (key_of p)
          ∙ ap (λ b. if b then some p else lookup (key_of p) s.profiles) (==_self (key_of p)))

  -- A profile whose registration returned is read back by its name and version, and if its activation
  -- returns then too, it is the active profile of this name and version.
  pub activate-register :
      (actor : Actor) (p q : StandardProfile) (w u v : ProfileWorld)
      → register message registry actor p w ≡ (ok tt, u)
      → activate message registry actor (key_of p) u ≡ (ok q, v)
      → (get_profile p.id p.version u.store ≡ some p)
        × (q ≡ p)
        × (get_profile p.id p.version v.store ≡ some p)
        × (is_active p.id p.version v.store ≡ true)
  unfolding get_profile is_active governed register activate
  activate-register actor p q w u v r a =
      let (s, registered, at_u) =
        governed-Returns message actor "register_profile" (key_of p)
          (registering message registry p) w tt u r in
      let (t, activated, at_v) =
        governed-Returns message actor "activate_profile" (key_of p) (registry.activate (key_of p))
          u q v a in
      let stored : lookup (key_of p) u.store.profiles ≡ some p =
        subst (λ x. lookup (key_of p) x.profiles ≡ some p) (sym at_u)
          (registering-stores p w.store s registered) in
      let (found, _, same, marks) = registry.activate_marks (key_of p) u.store q t activated in
      let marked : (contains (key_of p) u.store.active || key_of p == key_of p) ≡ true =
        ground (arith, ==_self (key_of p)) in
      (
        stored,
        some_injective (sym found ∙ stored),
        subst (λ x. lookup (key_of p) x.profiles ≡ some p) (sym at_v)
            (ap (lookup (key_of p)) same ∙ stored),
        subst (λ x. contains (key_of p) x.active ≡ true) (sym at_v) (marks (key_of p) ∙ marked),
      )
