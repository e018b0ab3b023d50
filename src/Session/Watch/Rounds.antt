-- ===== src/Session/Watch/Rounds.antt =====
-- helper/session/main.go: `presenceLoop`, which starts a watcher for as long as presence mode is wanted.
use electric_eel.Base.{
  ℕ, ◌≡◌, ◌≢◌, sym, ◌∙◌, ◌++◌, some, All, All-append, ap, Bool, false, List, [], ◌∷◌, if◌then◌else◌,
}
use electric_eel.Session.Presence.{PresenceConfig}
use electric_eel.Session.State.{presence_error, Session, emit_event}
use electric_eel.Session.Link.{Settings, loop_exit}
use electric_eel.Session.Link.Invariant.{
  Op, report, exit, apply, apply_all, Ends, apply_all-presence_cancel,
}
use electric_eel.Session.Link.Reach.{
  Reaches, Reaches-refl, Reaches-trans, Reaches-op, Reaches-apply_all, if-Reaches, apply_all-append,
}
use electric_eel.Session.Watch.{Turn, Loop, turns}
use electric_eel.Session.Watch.Runs.{IsOwn, TurnAll, turns-Reaches}
use electric_eel.Session.Link.Consistent.{IsConsistent}

abbrev pub new_loop : Session → Loop
new_loop s = record {
  session = s;
  presence = record { near = false; consec_near = 0; last_seen = 0 };
  peek_errors = 0;
  link_down_streak = 0;
}

-- an attempt of `presenceLoop` to start a watcher: it fails, or its turns are run
pub data Round : Type 0 where
  watch_failed : List Op → Round
  watched : List Op → List Turn → Round

module _ (cfg : Settings) (pc : PresenceConfig) where
  pub round : Round → Session → Session
  unfolding turns emit_event
  round (watch_failed ops) s = emit_event presence_error (apply_all cfg ops s)
  round (watched ops ts) s = (turns cfg pc ts (new_loop (apply_all cfg ops s))).session

  pub run_rounds : List Round → Session → Session
  unfolding round
  run_rounds [] s = s
  run_rounds (r ∷ rs) s = run_rounds rs (round r s)

  -- with the operations before its end, and the deferred cleanup
  pub presence_loop : Bool → List Round → List Op → ℕ → Session → Session
  unfolding run_rounds loop_exit emit_event
  presence_loop bus_opens rs last generation s =
      let watched_all = if bus_opens then run_rounds rs s else emit_event presence_error s in
      loop_exit generation (apply_all cfg last watched_all)

-- what is allowed of the operations of other goroutines
abbrev pub RoundAll : (Op → Type 0) → Round → Type 0
RoundAll P (watch_failed ops) = All P ops
RoundAll P (watched ops ts) = All P ops × All (TurnAll P) ts

module _ (P : Op → Type 0) (own : IsOwn P) (cfg : Settings) (pc : PresenceConfig) where
  round-Reaches : (r : Round) (s : Session) → RoundAll P r → Reaches P cfg s (round cfg pc r s)
  unfolding round apply
  round-Reaches (watch_failed ops) s safe =
      Reaches-trans P cfg s (apply_all cfg ops s) _ (Reaches-apply_all P cfg ops safe s)
        (Reaches-op P cfg report own.reports (apply_all cfg ops s))
  round-Reaches (watched ops ts) s safe =
      Reaches-trans P cfg s (apply_all cfg ops s) _ (Reaches-apply_all P cfg ops safe.0 s)
        (turns-Reaches P own cfg pc ts (new_loop (apply_all cfg ops s)) safe.1)

  run_rounds-Reaches :
      (rs : List Round) (s : Session)
      → All (RoundAll P) rs
      → Reaches P cfg s (run_rounds cfg pc rs s)
  unfolding run_rounds
  run_rounds-Reaches [] s safe = Reaches-refl P cfg s
  run_rounds-Reaches (r ∷ rs) s safe =
      Reaches-trans P cfg s (round cfg pc r s) _ (round-Reaches r s safe.0)
        (run_rounds-Reaches rs (round cfg pc r s) safe.1)

  -- Whatever the watcher, the link and the clock answer, what the presence loop does to the session is a run
  -- of operations, and the exit of its own generation is the last of them: connecting, asking for the
  -- status, the events, the beacons, a dropped link, a departure and the idle timer, for which `P` holds
  -- by hypothesis, and the operations that the lock lets in from other goroutines, if `P` holds for these.
  pub presence_loop-apply_all :
      (bus_opens : Bool) (rs : List Round) (last : List Op) (generation : ℕ) (s : Session)
      → All (RoundAll P) rs
      → All P last
      → (ops : List Op) × All P ops
        × (presence_loop cfg pc bus_opens rs last generation s
            ≡ apply cfg (exit generation) (apply_all cfg ops s))
  unfolding presence_loop apply
  presence_loop-apply_all bus_opens rs last generation s safe last_safe =
      let served = if bus_opens then run_rounds cfg pc rs s else emit_event presence_error s in
      let (ops, allowed, same) =
        Reaches-trans P cfg s served _
          (if-Reaches P cfg (λ (x : Session). x) bus_opens s _ _ (run_rounds-Reaches rs s safe)
            (Reaches-op P cfg report own.reports s))
          (Reaches-apply_all P cfg last last_safe served) in
      (ops, allowed, ap (loop_exit generation) same)

-- an operation that does not end the presence mode of a generation
abbrev pub Spares : ℕ → Op → Type 0
Spares g op = ¬ Ends g op

Spares-IsOwn : (g : ℕ) → IsOwn (Spares g)
Spares-IsOwn g = record {
  connects = λ w answer now target h. h;
  primes = λ answer now h. h;
  insides = λ now h. h;
  beacons = λ result at h. h;
  drops = λ h. h;
  departs = λ h. h;
  reports = λ h. h;
  keeps = λ h. h;
}

-- A presence loop of another generation, which was cancelled and runs on to its end, does not end the
-- presence mode that has taken its place: from a consistent session whose presence mode runs with the
-- generation `g`, if no other goroutine ends it, it still runs after the exit of the loop.
pub presence_loop-presence_cancel :
    (cfg : Settings) (pc : PresenceConfig) (bus_opens : Bool) (rs : List Round) (last : List Op)
    (generation g : ℕ) (s : Session)
    → IsConsistent s
    → s.presence_cancel ≡ some g
    → generation ≢ g
    → All (RoundAll (Spares g)) rs
    → All (Spares g) last
    → (presence_loop cfg pc bus_opens rs last generation s).presence_cancel ≡ some g
unfolding apply_all
presence_loop-presence_cancel cfg pc bus_opens rs last generation g s h run other safe last_safe =
    let (ops, spared, same) =
      presence_loop-apply_all (Spares g) (Spares-IsOwn g) cfg pc bus_opens rs last generation s safe
        last_safe in
    ap (λ (t : Session). t.presence_cancel)
      (same ∙ sym (apply_all-append (Spares g) cfg ops (exit generation ∷ []) s))
    ∙ apply_all-presence_cancel cfg (ops ++ exit generation ∷ []) s g h run
        (All-append (Spares g) ops (exit generation ∷ []) spared (other, tt))
