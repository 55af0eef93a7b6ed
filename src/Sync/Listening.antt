-- ===== src/Sync/Listening.antt =====
-- The port that `BindListenSocket` of client/sync_server.cpp takes.
use share_note_pad.Base.{
  ℕ, zero, suc, ◌+◌, ◌<◌, ◌≤◌, ◌≡◌, ◌≢◌, ◌⊎◌, ◌↔◌, refl, sym, ap, ◌∙◌, true, false, arith, leb,
  ◌==◌, Text, codes, leb→le, ==_iff, Bool-cases, inl, inr,
}
use share_note_pad.Sync.Session.{
  Probe, no_socket, taken, bound, listening, no_listener, bind_rounds, bind_listen_socket,
}

-- The port is the first one from `candidate` on that is not taken.
pub record FirstFree (probe : ℕ → Probe) (candidate port : ℕ) : Type 0 where
  pub from : candidate ≤ port
  pub allowed : port ≤ 7799
  pub free : probe port ≡ bound
  pub before : (q : ℕ) → candidate ≤ q → q < port → probe q ≡ taken

module _ (probe : ℕ → Probe) where
  Probe-cases : (p : Probe) → (p ≡ no_socket) ⊎ ((p ≡ taken) ⊎ (p ≡ bound))
  Probe-cases no_socket = inl refl
  Probe-cases taken = inr (inl refl)
  Probe-cases bound = inr (inr refl)

  no-listening : (reason : Text) (port : ℕ) → no_listener reason ≢ listening port
  no-listening reason port e = cc

  listening_inj : {p q : ℕ} → listening p ≡ listening q → p ≡ q
  listening_inj e = cc

  bind_rounds-FirstFree :
      (rounds candidate port : ℕ)
      → bind_rounds probe rounds candidate ≡ listening port
      → FirstFree probe candidate port × (port < candidate + rounds)
  unfolding bind_rounds
  bind_rounds-FirstFree zero candidate port h = absurd (no-listening _ port h)
  bind_rounds-FirstFree (suc rounds) candidate port h = elim (Bool-cases (leb candidate 7799)) [
    | inr high ↦ absurd (no-listening _ port (rw (high, bind_rounds) at h))
    | inl low ↦ elim (Probe-cases (probe candidate)) [
      | inl e ↦ absurd (no-listening _ port (rw (low, e, bind_rounds) at h))
      | inr (inr e) ↦
          let here = listening_inj (rw (low, e, bind_rounds) at h) in
          (
            record {
              from = omega (arith, here);
              allowed = omega (arith, here, leb→le candidate 7799 low);
              free = ap probe (sym here) ∙ e;
              before = λ q after earlier. absurd (omega (arith, here));
            },
            omega (arith, here),
          )
      | inr (inl e) ↦
          let (first, near) =
            bind_rounds-FirstFree rounds (candidate + 1) port (rw (low, e, bind_rounds) at h) in
          (
            record {
              from = omega (arith, first.from);
              allowed = first.allowed;
              free = first.free;
              before = λ q after earlier. elim (Bool-cases (candidate == q)) [
                | inl same ↦ ap probe (sym ((==_iff candidate q).0 same)) ∙ e
                | inr other ↦
                    first.before q (let ne : candidate + 1 ≤ q = ground arith in ne) earlier
              ];
            },
            omega (arith, near),
          )
    ]
  ]

  bind_rounds-listening :
      (rounds candidate port : ℕ)
      → FirstFree probe candidate port
      → port < candidate + rounds
      → bind_rounds probe rounds candidate ≡ listening port
  unfolding bind_rounds
  bind_rounds-listening zero candidate port first near = absurd (omega (arith, first.from))
  bind_rounds-listening (suc rounds) candidate port first near =
      let low : leb candidate 7799 ≡ true = ground (arith, first.from, first.allowed) in
      elim (Bool-cases (candidate == port)) [
        | inl same ↦
            let e = (==_iff candidate port).0 same in
            rw (low, ap probe e ∙ first.free, bind_rounds) (ap listening e)
        | inr other ↦
            let later : candidate < port = ground (arith, first.from) in
            rw (low, first.before candidate (omega arith) later, bind_rounds)
              (bind_rounds-listening rounds (candidate + 1) port
                (record {
                  from = omega (arith, later);
                  allowed = first.allowed;
                  free = first.free;
                  before = λ q after earlier. first.before q (omega (arith, after)) earlier;
                })
                (omega arith))
      ]

  -- `BindListenSocket` listens on a port exactly if this is the first port from the preferred one on
  -- that is not taken, one of the 23 from there on, and not above 7799.
  pub bind_listen_socket-FirstFree :
      (preferred port : ℕ)
      → (bind_listen_socket probe preferred ≡ listening port)
        ↔ (FirstFree probe preferred port × (port < preferred + 23))
  unfolding bind_listen_socket
  bind_listen_socket-FirstFree preferred port = (
    bind_rounds-FirstFree 23 preferred port,
    λ (first, near). bind_rounds-listening 23 preferred port first near,
  )

  -- A preferred port above 7799 is never listened on, nor is any other: the room does not start,
  -- whatever ports are free.
  bind_listen_socket-high :
      (preferred : ℕ)
      → 7799 < preferred
      → bind_listen_socket probe preferred ≡ no_listener (codes "no available port")
  unfolding bind_listen_socket bind_rounds
  bind_listen_socket-high preferred high =
      let over : leb preferred 7799 ≡ false = ground arith in rw over refl
