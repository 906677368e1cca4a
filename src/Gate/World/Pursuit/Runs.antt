-- ===== src/Gate/World/Pursuit/Runs.antt =====
-- The pursuit of the wind guard's command among the other tasks.
use gate_link.Prelude.{◌≡◌, refl, false, inl, inr, Option, some, List, [], ◌∷◌, arith}
use gate_link.Time.{Ticks}
use gate_link.Motor.{opening, closing}
use gate_link.Controls.{Controls, GateCommand, open_gate, Call, call_wind_trigger, apply_call}
use gate_link.Gate.{Task, returned, listening, driving}
use gate_link.Gate.Progress.Lateness.{Short}
use gate_link.Gate.World.{World, Event, pass, call, wake, happen, run}
use gate_link.Gate.World.Locked.{is_reset, NoReset}
use gate_link.Gate.World.Course.{OnCourse}
use gate_link.Gate.World.Course.Runs.{happen-OnCourse, Short-run}
use gate_link.Gate.World.Pursuit.{Wants, Guarded, Pursuit, Pursues}
use gate_link.Gate.World.Pursuit.Polls.{resume-Pursues}

call-Guarded :
    (k : Call) (c : Controls) → is_reset (call k) ≡ false → Guarded c → Guarded (apply_call k c)
unfolding apply_call
call-Guarded k c n h = ground arith

call-Wants :
    (k : Call) (c : Controls)
    → is_reset (call k) ≡ false
    → Guarded c
    → Wants c
    → Wants (apply_call k c)
unfolding apply_call
call-Wants k c n h w = ground arith

call-slot :
    (k : Call) (c : Controls)
    → is_reset (call k) ≡ false
    → Guarded c
    → c.command ≡ some open_gate
    → (apply_call k c).command ≡ some open_gate
unfolding apply_call
call-slot k c n h w = ground arith

call-Pursuit :
    (k : Call) (t : Task) (c : Controls) (p : Option GateCommand)
    → is_reset (call k) ≡ false
    → Guarded c
    → Pursuit t c p
    → Pursuit t (apply_call k c) p
call-Pursuit k (returned _) c p n h (inl w) = inl (call-Wants k c n h w)
call-Pursuit k (returned _) c p n h (inr e) = inr e
call-Pursuit k listening c p n h w = call-Wants k c n h w
call-Pursuit k (driving opening _ _ _ _) c p n h w = tt
call-Pursuit k (driving closing _ _ _ _) c p n h w = call-slot k c n h w

-- A trip of the guard starts the pursuit, wherever the gate task is.
pub trip-Pursues :
    (w : World)
    → Pursues (record w.gate { controls = apply_call call_wind_trigger w.gate.controls })
unfolding apply_call
trip-Pursues w = (
  (refl, inr refl),
  trip w.gate.task (apply_call call_wind_trigger w.gate.controls) w.gate.pending refl,
)
  where
    trip :
        (t : Task) (c : Controls) (p : Option GateCommand)
        → c.command ≡ some open_gate
        → Pursuit t c p
    trip (returned _) c p e = inl (inl e)
    trip listening c p e = inl e
    trip (driving opening _ _ _ _) c p e = tt
    trip (driving closing _ _ _ _) c p e = e

module _ ⦃ticks : Ticks⦄ where
  happen-Pursues :
      (e : Event) (w : World)
      → is_reset e ≡ false
      → Short w.now
      → OnCourse w.gate
      → Pursues w.gate
      → Pursues (happen e w).gate
  unfolding happen
  happen-Pursues (pass time) w n short h k = k
  happen-Pursues (call c) w n short h k = (
    call-Guarded c w.gate.controls n k.0,
    call-Pursuit c w.gate.task w.gate.controls w.gate.pending n k.0 k.1,
  )
  happen-Pursues (wake v) w n short h k = resume-Pursues w.now short v w.gate h k

  pub run-Pursues :
      (es : List Event) (w : World)
      → NoReset es
      → Short (run es w).now
      → OnCourse w.gate
      → Pursues w.gate
      → Pursues (run es w).gate
  unfolding run
  run-Pursues [] w n short h k = k
  run-Pursues (e ∷ es) w (n, ns) short h k =
      let early = Short-run (e ∷ es) w short in
      run-Pursues es (happen e w) ns short (happen-OnCourse e w early h)
        (happen-Pursues e w n early h k)
