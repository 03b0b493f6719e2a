-- ===== src/AppManager/Gate.antt =====
-- A handler as a gate of checks before the work of the adapter.
use grpc_gw_controller.Base.{
  Option, none, some, Bool, true, false, Outcome, ok, err, panic, ◌>>◌, if◌then◌else◌, ◌≡◌, refl,
  ◌∙◌, ap, inl, inr, Bool-cases, bytes_Eq,
}
use grpc_gw_controller.Base.Text.{Bytes}
use grpc_gw_controller.Mutex.{Locks, Mutex, lock, is_locked}
use grpc_gw_controller.Mutex.Laws.{unlock-lock}
use grpc_gw_controller.AppManager.{
  Reply, failure, Server, with_lock, checked, refused_in, refuse_if_some,
}

-- What stands between a request and its adapter: a refusal with its message, or nothing.
abbrev pub Gate : Type 0
Gate = Outcome Bytes (Unit {0})

abbrev pub unless : Bool → Bytes → Gate
unless true msg = err msg
unless false msg = ok tt

abbrev pub pass : Option Bytes → Gate
pass none = ok tt
pass (some e) = err e

module _ {W B : Type 0} where
  pub refused_in-checked :
      (o : Option Bytes) (gate : Gate) (act body : W → Reply B × W) (w : W)
      → body w ≡ checked gate act w
      → refused_in o body w ≡ checked (pass o >> gate) act w
  refused_in-checked none gate act body w e = e
  refused_in-checked (some x) gate act body w e = refl

module _ {V W B : Type 0} where
  -- A handler's effect behind its gate.
  abbrev pub behind : Gate → (W → Reply B × W) → Server V W → Reply B × Server V W
  behind (ok _) act s = let (r, w) = act s.world in (r, record s { world = w })
  behind (err e) act s = (failure e, s)
  behind panic act s = (panic, s)

  with_lock-world :
      (key : Bytes) (body : W → Reply B × W) (m : Locks (Option V)) (w : W)
      → is_locked key (some m) ≡ false
      → with_lock key body (record { mutex = some m; world = w })
        ≡ ((body w).0, record { mutex = some m; world = (body w).1 })
  unfolding with_lock lock
  with_lock-world key body m w free =
      ap (λ (n : Mutex (Option V)). ((body w).0, record { mutex = n; world = (body w).1 }))
        (unlock-lock key none m free)

  pub with_lock-behind :
      (key : Bytes) (body : W → Reply B × W) (gate : Gate) (act : W → Reply B × W)
      (m : Locks (Option V)) (w : W)
      → is_locked key (some m) ≡ false
      → body w ≡ checked gate act w
      → with_lock key body (record { mutex = some m; world = w })
        ≡ behind gate act (record { mutex = some m; world = w })
  with_lock-behind key body gate act m w free e =
      with_lock-world key body m w free
      ∙ ap (λ (p : Reply B × W). (p.0, record { mutex = some m; world = p.1 })) e
      ∙ by_gate gate
    where
      by_gate :
          (g : Gate)
          → ((checked g act w).0, record { mutex = some m; world = (checked g act w).1 })
            ≡ behind g act (record { mutex = some m; world = w })
      by_gate (ok _) = refl
      by_gate (err _) = refl
      by_gate panic = refl

  pub refuse_if_some-behind :
      (o : Option Bytes) (rest : Server V W → Reply B × Server V W) (gate : Gate)
      (act : W → Reply B × W) (s : Server V W)
      → rest s ≡ behind gate act s
      → refuse_if_some o rest s ≡ behind (pass o >> gate) act s
  refuse_if_some-behind none rest gate act s e = e
  refuse_if_some-behind (some x) rest gate act s e = refl

  pub unless-behind :
      (key msg : Bytes) (rest : Reply B × Server V W) (gate : Gate) (act : W → Reply B × W)
      (s : Server V W)
      → (is_locked key s.mutex ≡ false → rest ≡ behind gate act s)
      → (if is_locked key s.mutex then (failure msg, s) else rest)
        ≡ behind (unless (is_locked key s.mutex) msg >> gate) act s
  unless-behind key msg rest gate act s e = elim (Bool-cases (is_locked key s.mutex)) [
    | inl locked ↦ rw locked refl
    | inr free ↦ rw free (e free)
  ]

  -- Whatever the gate says, the locks stay.
  pub behind-mutex :
      (g : Gate) (f : W → Reply B × W) (s : Server V W) → (behind g f s).1.mutex ≡ s.mutex
  behind-mutex (ok _) f s = refl
  behind-mutex (err _) f s = refl
  behind-mutex panic f s = refl
