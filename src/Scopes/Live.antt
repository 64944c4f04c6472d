-- ===== src/Scopes/Live.antt =====
-- What `_sync_wider` of engine.py leaves alive.
use tiderace.Base.{
  All, Bool, Bool-cases, List, Option-cases, Str, [], arith, eqb, false, inl, inr, refl, subst, sym,
  true, ◌++◌, ◌||◌, ◌∙◌, ◌∷◌, ◌≡◌, ◌⊎◌,
}
use tiderace.Fixtures.{FixtureDef, InstanceKey, instance_key, module_of, rank}
use tiderace.Scopes.{
  Active, Engine, Host, args_of, key_live, keys, leave_module, set_up, started, sync_wider, synced,
  teardown_stale, teardown_while,
}
use tiderace.Scopes.Keys.{IsDistinct, key_live_here}
use tiderace.Scopes.Teardown.{teardown_while-ClosesStale}

module _ {V H W : Type 0} (host : Host V H W) (node : Str) where
  -- The engine after `d` was set up.
  abbrev begun : FixtureDef → V → H → W → Engine V H W → Engine V H W
  begun d v h w st = record st {
    active = record { fdef = d; key = instance_key d node; value = v; handle = h } ∷ st.active;
    world = w;
  }

  abbrev skipped : FixtureDef → List InstanceKey → Bool
  skipped d live = eqb (rank d) 0 || key_live (instance_key d node) live

  -- One round of the loop: nothing to do, an exception, or one fixture more.
  set_up-cases :
      (live : List InstanceKey) (d : FixtureDef) (ds : List FixtureDef) (st : Engine V H W)
      → ((skipped d live ≡ true)
          × (set_up host node live (d ∷ ds) st ≡ set_up host node live ds st))
        ⊎ (((w : W) × (set_up host node live (d ∷ ds) st ≡ (false, record st { world = w })))
            ⊎ ((v : V) × (h : H) × (w : W) × (skipped d live ≡ false)
                × (set_up host node live (d ∷ ds) st
                    ≡ set_up host node (instance_key d node ∷ live) ds (begun d v h w st))))
  unfolding set_up
  set_up-cases live d ds st = elim (Bool-cases (skipped d live)) [
    | inl skip ↦ inl (skip, ground arith)
    | inr new ↦ elim (Option-cases (args_of host d.bindings st.active)) [
      | inl e ↦ inr (inl (st.world, ground arith))
      | inr (args, e) ↦ elim (Option-cases (host.setup d args st.world).0) [
        | inl raised ↦ inr (inl ((host.setup d args st.world).1, ground arith))
        | inr ((v, h), made) ↦ inr (inr (v, h, (host.setup d args st.world).1, new, ground arith))
      ]
    ]
  ]

  -- Every definition of the closure that is wider than a function has its key among those alive.
  abbrev pub Serves : List FixtureDef → Bool × Engine V H W → Type 0
  Serves ds (ok, st) =
      (ok ≡ false)
      ⊎ All (λ d. (rank d ≡ 0) ⊎ (key_live (instance_key d node) (keys host st.active) ≡ true)) ds

  abbrev Keeps : List InstanceKey → Engine V H W → Type 0
  Keeps ks st = (k : InstanceKey) → key_live k ks ≡ true → key_live k (keys host st.active) ≡ true

  set_up-Keeps :
      (live ks : List InstanceKey) (ds : List FixtureDef) (st : Engine V H W)
      → Keeps ks st
      → Keeps ks (set_up host node live ds st).1
  set_up-Keeps live ks [] st h = unfold set_up in h
  set_up-Keeps live ks (d ∷ ds) st h = elim (set_up-cases live d ds st) [
    | inl (_, e) ↦ subst (λ r. Keeps ks r.1) (sym e) (set_up-Keeps live ks ds st h)
    | inr (inl (w, e)) ↦ subst (λ r. Keeps ks r.1) (sym e) h
    | inr (inr (v, x, w, _, e)) ↦
        subst (λ r. Keeps ks r.1) (sym e)
          (set_up-Keeps (instance_key d node ∷ live) ks ds (begun d v x w st)
            (λ k p. unfold key_live in (let q = h k p in ground arith)))
  ]

  -- `live` is the set of the keys in `active`.
  abbrev Tracks : List InstanceKey → Engine V H W → Type 0
  Tracks live st = (k : InstanceKey) → key_live k live ≡ key_live k (keys host st.active)

  begun-Tracks :
      (live : List InstanceKey) (d : FixtureDef) (v : V) (x : H) (w : W) (st : Engine V H W)
      → Tracks live st
      → Tracks (instance_key d node ∷ live) (begun d v x w st)
  unfolding key_live
  begun-Tracks live d v x w st h k = rw (h k) refl

  served_here :
      (d : FixtureDef) (ds : List FixtureDef) (r : Bool × Engine V H W)
      → (rank d ≡ 0) ⊎ (key_live (instance_key d node) (keys host r.1.active) ≡ true)
      → Serves ds r
      → Serves (d ∷ ds) r
  served_here d ds r h (inl raised) = inl raised
  served_here d ds r h (inr served) = inr (h, served)

  skipped-served :
      (live : List InstanceKey) (d : FixtureDef) (ds : List FixtureDef) (st : Engine V H W)
      → Tracks live st
      → skipped d live ≡ true
      → (rank d ≡ 0)
        ⊎ (key_live (instance_key d node) (keys host (set_up host node live ds st).1.active) ≡ true)
  skipped-served live d ds st h skip = elim (Bool-cases (key_live (instance_key d node) live)) [
    | inl old ↦ inr (set_up-Keeps live live ds st (λ k p. sym (h k) ∙ p) (instance_key d node) old)
    | inr new ↦ inl (ground arith)
  ]

  set_up-Serves :
      (live : List InstanceKey) (ds : List FixtureDef) (st : Engine V H W)
      → Tracks live st
      → Serves ds (set_up host node live ds st)
  set_up-Serves live [] st h = inr tt
  set_up-Serves live (d ∷ ds) st h = elim (set_up-cases live d ds st) [
    | inl (skip, e) ↦ subst (Serves (d ∷ ds)) (sym e) (
        served_here d ds (set_up host node live ds st) (skipped-served live d ds st h skip)
          (set_up-Serves live ds st h))
    | inr (inl (w, e)) ↦ subst (Serves (d ∷ ds)) (sym e) (inl refl)
    | inr (inr (v, x, w, _, e)) ↦ subst (Serves (d ∷ ds)) (sym e) (
        served_here d ds (set_up host node (instance_key d node ∷ live) ds (begun d v x w st))
          (inr (
            set_up-Keeps (instance_key d node ∷ live) (instance_key d node ∷ []) ds
              (begun d v x w st) (λ k p. unfold key_live in ground arith) (instance_key d node)
              (key_live_here (instance_key d node) [])))
          (set_up-Serves (instance_key d node ∷ live) ds (begun d v x w st)
            (begun-Tracks live d v x w st h)))
  ]

  abbrev Unique : Engine V H W → Type 0
  Unique st = IsDistinct (keys host st.active)

  set_up-Unique :
      (live : List InstanceKey) (ds : List FixtureDef) (st : Engine V H W)
      → Tracks live st
      → Unique st
      → Unique (set_up host node live ds st).1
  set_up-Unique live [] st h u = unfold set_up in u
  set_up-Unique live (d ∷ ds) st h u = elim (set_up-cases live d ds st) [
    | inl (_, e) ↦ subst (λ r. Unique r.1) (sym e) (set_up-Unique live ds st h u)
    | inr (inl (w, e)) ↦ subst (λ r. Unique r.1) (sym e) u
    | inr (inr (v, x, w, new, e)) ↦
        subst (λ r. Unique r.1) (sym e)
          (set_up-Unique (instance_key d node ∷ live) ds (begun d v x w st)
            (begun-Tracks live d v x w st h) (sym (h (instance_key d node)) ∙ ground arith, u))
  ]

  keys-append :
      (xs ys : List (Active V H)) → IsDistinct (keys host (xs ++ ys)) → IsDistinct (keys host ys)
  keys-append [] ys u = u
  keys-append (x ∷ xs) ys u = keys-append xs ys u.1

  teardown_while-Unique :
      (active : List (Active V H)) (w : W)
      → IsDistinct (keys host active)
      → IsDistinct (keys host (teardown_while host node active w).1)
  teardown_while-Unique active w u =
      let (closed, _, e, _, _, _) = teardown_while-ClosesStale host node active w in
      keys-append closed (teardown_while host node active w).1
        (subst (λ l. IsDistinct (keys host l)) e u)

  teardown_stale-active :
      (st : Engine V H W)
      → (teardown_stale host node st).1.active ≡ (teardown_while host node st.active st.world).1
  unfolding teardown_stale leave_module
  teardown_stale-active st = ground arith

  started-Unique :
      (ds : List FixtureDef) (st : Engine V H W) (r : Bool × W)
      → Unique st
      → Unique (started host ds node st r).1
  started-Unique ds st (false, w) u = u
  started-Unique ds st (true, w) u =
      set_up-Unique (keys host st.active) ds (record st { world = w }) (λ k. refl) u

  synced-Unique :
      (ds : List FixtureDef) (r : Bool × Engine V H W)
      → Unique r.1
      → Unique (synced host ds node r).1
  synced-Unique ds (false, st) u = u
  synced-Unique ds (true, st) u =
      started-Unique ds st (host.xunit_setup (module_of node) st.world) u

  -- If no two live fixtures have the same key before, then none have after, whatever raises on the
  -- way.
  pub sync_wider-Unique :
      (ds : List FixtureDef) (st : Engine V H W)
      → IsDistinct (keys host st.active)
      → IsDistinct (keys host (sync_wider host ds node st).1.active)
  unfolding sync_wider
  sync_wider-Unique ds st u =
      let noted : Engine V H W = record st { world = host.node_for node st.world } in
      synced-Unique ds (teardown_stale host node noted) (
        subst (λ l. IsDistinct (keys host l)) (sym (teardown_stale-active noted))
          (teardown_while-Unique st.active noted.world u))

  started-Serves :
      (ds : List FixtureDef) (st : Engine V H W) (r : Bool × W)
      → Serves ds (started host ds node st r)
  started-Serves ds st (false, w) = inl refl
  started-Serves ds st (true, w) =
      set_up-Serves (keys host st.active) ds (record st { world = w }) (λ k. refl)

  synced-Serves :
      (ds : List FixtureDef) (r : Bool × Engine V H W) → Serves ds (synced host ds node r)
  synced-Serves ds (false, st) = inl refl
  synced-Serves ds (true, st) = started-Serves ds st (host.xunit_setup (module_of node) st.world)

  -- After a synchronisation during which nothing raised, the instance key for this node of every
  -- definition of the closure that is wider than a function is the key of a fixture that is alive. That
  -- fixture may come from another definition with the same key.
  pub sync_wider-Serves :
      (ds : List FixtureDef) (st : Engine V H W) → Serves ds (sync_wider host ds node st)
  unfolding sync_wider
  sync_wider-Serves ds st =
      synced-Serves ds
        (teardown_stale host node (record st { world = host.node_for node st.world }))
