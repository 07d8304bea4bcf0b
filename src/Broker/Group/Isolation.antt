-- ===== src/Broker/Group/Isolation.antt =====
-- internal/broker/group.go: an operation on a group is that group's alone, and a restart adopts the groups
-- of the store.
use kafka_wire.Prelude.{
  ℕ, ◌/◌, ◌≡◌, ◌≢◌, refl, ap, subst, ◌∙◌, ◌⊎◌, inl, inr, true, false, List, [], ◌∷◌, All, some,
  arith, Bool-cases, option-both,
}
use mathlib.Core.Path.{ap₂}
use kafka_wire.Prelude.Result.{Result-cases}
use kafka_wire.Prelude.Map.{
  same, same_eq, same_ne, same-IsEqual, find, put, has, find-put_same, find-put_other,
}
use kafka_wire.Broker.Names.{validate_name}
use kafka_wire.Broker.Offsets.{GroupState, OffsetStore, new_group, get}
use kafka_wire.Broker.Group.{
  LiveGroup, Reply, SyncGroupResult, JoinGroupArgs, SyncGroupArgs, HeartbeatArgs,
}
use kafka_wire.Broker.Group.Coordinator.{
  GroupCoordinator, idle, adopt_all, new_group_coordinator, with_state, load, save, find_or_create,
  handle_join, handle_expire, handle_sync, handle_heartbeat, handle_leave,
}

-- What was written back is what is read next, and other groups are as before.
pub load-save :
    (c : GroupCoordinator) (id : List ℕ) (lg : LiveGroup) → load (save c id lg) id ≡ some lg
unfolding load save
load-save c id lg =
    ap₂ with_state (find-put_same same same-IsEqual id lg c.live)
      (find-put_same same same-IsEqual id lg.persisted c.store)

load-save_other :
    (c : GroupCoordinator) (id g : List ℕ) (lg : LiveGroup)
    → same id g ≡ false
    → load (save c id lg) g ≡ load c g
unfolding load save
load-save_other c id g lg h =
    ap₂ with_state (find-put_other same same-IsEqual id g lg c.live h)
      (find-put_other same same-IsEqual id g lg.persisted c.store h)

get-other :
    (store : OffsetStore) (id g : List ℕ) (now : ℕ)
    → same id g ≡ false
    → find same g (get store id now).0 ≡ find same g store
unfolding get
get-other store id g now h =
    option-both (λ (p : OffsetStore × GroupState). find same g p.0 ≡ find same g store)
      (find same id store) _ _ (find-put_other same same-IsEqual id g (new_group id now) store h)
      (λ gs. refl)

load-get :
    (now : ℕ) (c : GroupCoordinator) (id g : List ℕ)
    → same id g ≡ false
    → load (find_or_create now c id).0 g ≡ load c g
unfolding find_or_create load
load-get now c id g h =
    let made = get c.store id (now / 1000000) in
    option-both (λ (p : GroupCoordinator × LiveGroup). load p.0 g ≡ load c g) (load c id) _ _
      (ap₂ with_state (find-put_other same same-IsEqual id g (idle id made.1) c.live h)
        (get-other c.store id g (now / 1000000) h))
      (λ lg. refl)

handle_join-isolated :
    (c : GroupCoordinator) (g : List ℕ) (now : ℕ) (digits : List ℕ) (join : JoinGroupArgs)
    → join.group_id ≢ g
    → load (handle_join now digits join c).0 g ≡ load c g
unfolding handle_join
handle_join-isolated c g now digits join ne =
    let other = same_ne join.group_id g ne in
    elim (Result-cases (validate_name join.group_id)) [
      | inr (e, bad) ↦ rw (handle_join, bad) refl
      | inl (u, fine) ↦
          rw (handle_join, fine)
            (load-save_other (find_or_create now c join.group_id).0 join.group_id g _ other
              ∙ load-get now c join.group_id g other)
    ]

-- A join, an expiry, a sync, a heartbeat and a leave of other groups leave a group as it is, its
-- offsets included.
pub handlers-isolated :
    (c : GroupCoordinator) (id g : List ℕ) (now number : ℕ) (digits member_id : List ℕ)
    (join : JoinGroupArgs) (sync : SyncGroupArgs) (beat : HeartbeatArgs)
    → join.group_id ≢ g
    → sync.group_id ≢ g
    → beat.group_id ≢ g
    → id ≢ g
    → (load (handle_join now digits join c).0 g ≡ load c g)
      × (load (handle_expire now id number c) g ≡ load c g)
      × (load (handle_sync now sync c).0 g ≡ load c g)
      × (load (handle_heartbeat now beat c).0 g ≡ load c g)
      × (load (handle_leave now id member_id c).0 g ≡ load c g)
unfolding handle_expire handle_sync handle_heartbeat handle_leave
handlers-isolated c id g now number digits member_id join sync beat nj ns nb ne =
    let Same = λ (x : GroupCoordinator). load x g ≡ load c g in
    let away =
      λ (k : List ℕ) (lg : LiveGroup) (n : k ≢ g). load-save_other c k g lg (same_ne k g n) in
    (
      handle_join-isolated c g now digits join nj,
      option-both Same (load c id) _ _ refl (λ lg. away id _ ne),
      option-both (λ (p : GroupCoordinator × Reply SyncGroupResult). load p.0 g ≡ load c g)
          (load c sync.group_id) _ _ refl (λ lg. away sync.group_id _ ns),
      option-both (λ (p : GroupCoordinator × ℕ). load p.0 g ≡ load c g) (load c beat.group_id) _ _
          refl (λ lg. away beat.group_id _ nb),
      option-both (λ (p : GroupCoordinator × ℕ). load p.0 g ≡ load c g) (load c id) _ _ refl
          (λ lg. away id _ ne),
    )

-- Of the group's key: it is still to come, or it is adopted.
adopted :
    (id k : List ℕ) (gs : GroupState) (ms : List (List ℕ × GroupState))
    (live : List (List ℕ × LiveGroup))
    → gs.group_id ≡ k
    → (has same id ((k, gs) ∷ ms) ≡ true)
      ⊎ ((gs' : GroupState) × (find same id live ≡ some (idle id gs')))
    → (has same id ms ≡ true)
      ⊎ ((gs' : GroupState) × (find same id (put same gs.group_id (idle gs.group_id gs) live)
            ≡ some (idle id gs')))
unfolding has find
adopted id k gs ms live named known = elim (Bool-cases (same gs.group_id id)) [
  | inl here ↦ inr (
    gs,
    subst (λ x. find same x (put same gs.group_id (idle gs.group_id gs) live) ≡ some (idle x gs))
        (same_eq gs.group_id id here)
        (find-put_same same same-IsEqual gs.group_id (idle gs.group_id gs) live),
  )
  | inr other ↦ elim known [
    | inl h ↦ inl (ground (arith, h, other, ap (λ x. same x id) named))
    | inr (gs', e) ↦ inr (gs', find-put_other same same-IsEqual gs.group_id id _ live other ∙ e)
  ]
]

adopt_all-find :
    (id : List ℕ) (ms : List (List ℕ × GroupState)) (live : List (List ℕ × LiveGroup))
    → All (λ e. e.1.group_id ≡ e.0) ms
    → (has same id ms ≡ true) ⊎ ((gs : GroupState) × (find same id live ≡ some (idle id gs)))
    → (gs : GroupState) × (find same id (adopt_all ms live) ≡ some (idle id gs))
unfolding adopt_all has find
adopt_all-find id [] live named (inr found) = found
adopt_all-find id [] live named (inl h) = absurd cc
adopt_all-find id ((k, gs) ∷ ms) live named known =
    adopt_all-find id ms (put same gs.group_id (idle gs.group_id gs) live) named.1
      (adopted id k gs ms live named.0 known)

-- A coordinator made over a store that has each group under its name knows every group of the
-- store, with its stored state, empty, and with no round.
pub new_group_coordinator-load :
    (store : OffsetStore) (id : List ℕ) (gs : GroupState)
    → All (λ e. e.1.group_id ≡ e.0) store
    → find same id store ≡ some gs
    → load (new_group_coordinator store) id ≡ some (idle id gs)
unfolding load new_group_coordinator has
new_group_coordinator-load store id gs named h =
    let (gs', e) = adopt_all-find id store [] named (inl (rw (has, h) refl)) in rw (load, e, h) refl
