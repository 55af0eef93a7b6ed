-- ===== src/Main/Reconnect/Trying.antt =====
-- How often `ReconnectLoop` tries, and what it tells the window.
use mathlib.Core.Path.{subst}
use share_note_pad.Base.{
  ℕ, zero, suc, ◌+◌, ◌≤◌, ◌<◌, ◌≡◌, refl, ap, sym, ◌⊎◌, inl, inr, Bool, true, false, List, [], ◌∷◌,
  ◌++◌, append_assoc, append-nil, if_cases, arith,
}
use share_note_pad.Main.Reconnect.{
  ReconnectStatus, attempting, reconnected, reconnect_failed, Loop, Attempts,
  max_reconnect_attempts, connect_again, reconnect_rounds, reconnect_loop,
}
use share_note_pad.Main.State.{MainWindow}
use share_note_pad.Protocol.Codec.{TextApi}
use share_note_pad.Sync.Client.{Client}
use share_note_pad.Sync.Transport.{Net}

-- The messages of `n` attempts in a row.
abbrev pub attempts_from : ℕ → ℕ → List ReconnectStatus
attempts_from attempt zero = []
attempts_from attempt (suc n) = attempting attempt ∷ attempts_from (attempt + 1) n

module _ (api : TextApi) (net : Net) (attempts : Attempts) (stops : ℕ → Bool) (x : MainWindow) where
  abbrev try : Client → ℕ → Client × Bool
  try client attempt = connect_again api net attempts stops client x attempt

  -- The client after `n` attempts in a row.
  abbrev pub client_after : ℕ → ℕ → Client → Client
  client_after zero attempt client = client
  client_after (suc n) attempt client = client_after n (attempt + 1) (try client attempt).0

  -- None of `n` attempts in a row is stopped or connects.
  abbrev pub AllFail : ℕ → ℕ → Client → Type 0
  AllFail zero attempt client = Unit
  AllFail (suc n) attempt client =
      (stops attempt ≡ false)
      × ((try client attempt).1 ≡ false)
      × AllFail n (attempt + 1) (try client attempt).0

  -- How the loop ends after `n` attempts that fail, with what was told: it is stopped and tells nothing
  -- more, or the next attempt connects and success is told, or no attempt is left and failure is told.
  abbrev pub Ends : ℕ → ℕ → ℕ → Client → List ReconnectStatus → Loop → Type 0
  Ends rounds n attempt last told r =
      ((stops attempt ≡ true) × (r.client ≡ last) × (r.posted ≡ told))
      ⊎ ((stops attempt ≡ false)
          × (n < rounds)
          × ((try last attempt).1 ≡ true)
          × (r.client ≡ (try last attempt).0)
          × (r.posted ≡ told ++ (attempting attempt ∷ reconnected ∷ [])))
      ⊎ ((stops attempt ≡ false)
          × (n ≡ rounds)
          × (r.client ≡ last)
          × (r.posted ≡ told ++ reconnect_failed ∷ []))

  abbrev pub Told : ℕ → ℕ → Client → List ReconnectStatus → Loop → Type 0
  Told rounds attempt client before r =
      (n : ℕ) × (n ≤ rounds)
      × AllFail n attempt client
      × Ends rounds n (attempt + n) (client_after n attempt client)
          (before ++ attempts_from attempt n) r

  Ends-suc :
      (rounds n attempt : ℕ) (last : Client) (told : List ReconnectStatus) (r : Loop)
      → Ends rounds n attempt last told r
      → Ends (suc rounds) (suc n) attempt last told r
  Ends-suc rounds n attempt last told r (inl h) = inl h
  Ends-suc rounds n attempt last told r (inr (inl (s, less, c, d, e))) =
      inr (inl (s, omega (arith, less), c, d, e))
  Ends-suc rounds n attempt last told r (inr (inr (s, e, d, f))) = inr (inr (s, ap suc e, d, f))

  -- An attempt that fails goes before.
  Told-suc :
      (rounds attempt : ℕ) (client : Client) (before : List ReconnectStatus) (r : Loop)
      → stops attempt ≡ false
      → (try client attempt).1 ≡ false
      → Told rounds (attempt + 1) (try client attempt).0 (before ++ attempting attempt ∷ []) r
      → Told (suc rounds) attempt client before r
  Told-suc rounds attempt client before r running fails (n, h, all, ends) =
      let last = client_after n (attempt + 1) (try client attempt).0 in
      let same : attempt + 1 + n ≡ attempt + suc n = omega arith in
      (
        suc n,
        omega arith,
        (running, fails, all),
        subst (λ k. Ends (suc rounds) (suc n) k last (before ++ attempts_from attempt (suc n)) r)
            same
            (subst (λ told. Ends (suc rounds) (suc n) (attempt + 1 + n) last told r)
              (append_assoc before (attempting attempt ∷ []) (attempts_from (attempt + 1) n))
              (Ends-suc rounds n (attempt + 1 + n) last _ r ends)),
      )

  -- Without any attempt before.
  at_once :
      (rounds attempt : ℕ) (client : Client) (before : List ReconnectStatus) (r : Loop)
      → Ends rounds 0 attempt client before r
      → Told rounds attempt client before r
  at_once rounds attempt client before r ends = (
    0,
    omega arith,
    tt,
    subst (λ k. Ends rounds 0 k client (before ++ []) r)
        (let same : attempt ≡ attempt + 0 = omega arith in same)
        (subst (λ told. Ends rounds 0 attempt client told r) (sym (append-nil before)) ends),
  )

  reconnect_rounds-Told :
      (rounds attempt : ℕ) (client : Client) (posted : List ReconnectStatus)
      → Told rounds attempt client posted
          (reconnect_rounds api net attempts stops rounds attempt client x posted)
  unfolding reconnect_rounds
  reconnect_rounds-Told zero attempt client posted = at_once zero attempt client posted _ (
      if_cases
        (λ told.
          let r : Loop = record { client = client; posted = told } in
          Ends zero 0 attempt client posted r)
        (stops attempt) _ _ (λ e. inl (e, refl, refl)) (λ e. inr (inr (e, refl, refl, refl))))
  reconnect_rounds-Told (suc rounds) attempt client posted =
      let (client', connected) = try client attempt in
      if_cases (Told (suc rounds) attempt client posted) (stops attempt) _ _
        (λ e. at_once (suc rounds) attempt client posted _ (inl (e, refl, refl)))
        (λ e.
          if_cases (Told (suc rounds) attempt client posted) connected _ _
            (λ f.
              at_once (suc rounds) attempt client posted _
                (inr (inl (e, omega arith, f, refl, append_assoc posted _ _))))
            (λ f. Told-suc rounds attempt client posted _ e f (
              reconnect_rounds-Told rounds (attempt + 1) client'
                (posted ++ attempting attempt ∷ []))))

  -- The loop tries five times at most, counted from 1, and tells every attempt. It ends exactly in one
  -- of three ways: when it finds before an attempt, or after the fifth, that it is stopped, it tells
  -- nothing more; when an attempt connects, it tells success at once, with the client connected; when
  -- five attempts have failed, it tells failure. All attempts before have failed.
  pub reconnect_loop-Told :
      (client : Client)
      → Told max_reconnect_attempts 1 client [] (reconnect_loop api net attempts stops client x).0
  unfolding reconnect_loop
  reconnect_loop-Told client = reconnect_rounds-Told 5 1 client []
