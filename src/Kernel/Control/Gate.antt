-- ===== src/Kernel/Control/Gate.antt =====
-- What one tick of the control task does to the queue and the world.
use sputter_os.Prelude.{
  ℕ, zero, suc, Bool, true, false, List, [], ◌∷◌, ◌++◌, ◌≡◌, refl, ◌∙◌, ap, sym, Option, none, some,
  take, drop, All, Bool-cases, ◌⊎◌, inl, inr,
}
use sputter_os.Sync.Fifo.{poll}
use sputter_os.Sync.Queue.{try_pop}
use sputter_os.Sync.Queue.Laws.{IsValid, contents, try_pop_refines}
use sputter_os.Kernel.Control.{
  Application, Plant, any_unsafe, take_commands, process_commands, evaluate_safety, control_tick,
}

poll_cases :
    {A : Type 0} (l rest : List A) (got : Option A)
    → (got, rest) ≡ poll l
    → ((got ≡ none) × ((l ≡ []) × (rest ≡ []))) ⊎ ((x : A) × ((got ≡ some x) × (l ≡ x ∷ rest)))
unfolding poll
poll_cases [] rest got e = inl (ap (λ r. r.0) e, (refl, ap (λ r. r.1) e))
poll_cases (x ∷ xs) rest got e = inr (x, (ap (λ r. r.0) e, ap (λ l. x ∷ l) (sym (ap (λ r. r.1) e))))

-- The application after a list of commands.
abbrev pub handle_all : {A W : Type 0} → Application A W → List A → W → W
handle_all a [] w = w
handle_all a (cmd ∷ cmds) w = handle_all a cmds (a.handle_command cmd w)

module _ {M W : Type 0} (is_safe : M → W → Bool) where
  -- A null monitor counts as safe.
  abbrev pub IsSafe : W → Option M → Type 0
  IsSafe w none = Unit {0}
  IsSafe w (some m) = is_safe m w ≡ true

  any_unsafe-none :
      (ms : List (Option M)) (w : W) → All (IsSafe w) ms → any_unsafe is_safe ms w ≡ false
  unfolding any_unsafe
  any_unsafe-none [] w h = refl
  any_unsafe-none (none ∷ ms) w (h, hs) = any_unsafe-none ms w hs
  any_unsafe-none (some m ∷ ms) w (h, hs) = rw h (any_unsafe-none ms w hs)

  any_unsafe-some :
      (before after : List (Option M)) (m : M) (w : W)
      → is_safe m w ≡ false
      → any_unsafe is_safe (before ++ some m ∷ after) w ≡ true
  unfolding any_unsafe
  any_unsafe-some [] after m w h = rw h
  any_unsafe-some (none ∷ before) after m w h = any_unsafe-some before after m w h
  any_unsafe-some (some k ∷ before) after m w h = elim (Bool-cases (is_safe k w)) [
    | inl e ↦ rw e (any_unsafe-some before after m w h)
    | inr e ↦ rw e
  ]

module _ {A W : Type 0} (dflt : A) (capacity : ℕ) (a : Application A W) where
  take_commands-none :
      (k : ℕ) (s : Plant A W)
      → (try_pop dflt capacity s.queue).0 ≡ none
      → take_commands dflt capacity a (suc k) s
        ≡ record s { queue = (try_pop dflt capacity s.queue).1 }
  unfolding take_commands
  take_commands-none k s e = rw (take_commands, e)

  take_commands-some :
      (k : ℕ) (s : Plant A W) (cmd : A)
      → (try_pop dflt capacity s.queue).0 ≡ some cmd
      → take_commands dflt capacity a (suc k) s
        ≡ take_commands dflt capacity a k (record s {
          queue = (try_pop dflt capacity s.queue).1;
          plant_world = a.handle_command cmd s.plant_world;
        })
  unfolding take_commands
  take_commands-some k s cmd e = rw (take_commands, e)

  -- The `k` oldest commands reach the application in order, and the others stay.
  take_commands_fifo :
      (k : ℕ) (s : Plant A W)
      → IsValid dflt capacity s.queue
      → let s' = take_commands dflt capacity a k s in
        let held = contents dflt capacity s.queue in
        ((s'.plant_world ≡ handle_all a (take k held) s.plant_world)
          × (s'.safety_abort ≡ s.safety_abort))
        × ((contents dflt capacity s'.queue ≡ drop k held) × IsValid dflt capacity s'.queue)
  unfolding take_commands
  take_commands_fifo zero s v = ((refl, refl), (refl, v))
  take_commands_fifo (suc k) s v =
      let popped = try_pop dflt capacity s.queue in
      let (out, v') = try_pop_refines dflt capacity s.queue v in
      elim (poll_cases (contents dflt capacity s.queue) (contents dflt capacity popped.1) popped.0
        out) [
          | inl (n, (e, e')) ↦ rw (take_commands-none k s n, e) ((refl, refl), (e', v'))
          | inr (x, (g, e)) ↦
              rw (take_commands-some k s x g, e)
                (take_commands_fifo k
                  (record s { queue = popped.1; plant_world = a.handle_command x s.plant_world })
                  v')
        ]

module _ {A W M : Type 0} (dflt : A) (capacity : ℕ) (is_safe : M → W → Bool)
    (a : Application A W) where
  -- A tick of the control task with a valid queue. While every monitor is safe, the application gets
  -- the oldest commands in order, as many as the limit allows, is ticked after them, and the rest of
  -- the queue stays. If any monitor is unsafe, it gets none and is not ticked: it is forced to its safe
  -- state, the abort is signalled, and the queue is left as it is.
  pub control_tick_gate :
      (monitors : List (Option M)) (max_commands now : ℕ) (s : Plant A W)
      → IsValid dflt capacity s.queue
      → let s' = control_tick dflt capacity is_safe (some a) monitors max_commands now s in
        let held = contents dflt capacity s.queue in
        (All (IsSafe is_safe s.plant_world) monitors
          → (s'.plant_world ≡ a.tick_app now (handle_all a (take max_commands held) s.plant_world))
            × ((contents dflt capacity s'.queue ≡ drop max_commands held)
                × (s'.safety_abort ≡ s.safety_abort)))
        × ((before after : List (Option M)) (m : M)
            → monitors ≡ before ++ some m ∷ after
            → is_safe m s.plant_world ≡ false
            → s' ≡ record s { plant_world = a.force_safe_abort s.plant_world; safety_abort = true })
  unfolding control_tick evaluate_safety process_commands
  control_tick_gate monitors max_commands now s v =
      let ((world, abort), (queue, valid)) = take_commands_fifo dflt capacity a max_commands s v in
      (
        λ safe.
            rw (any_unsafe-none is_safe monitors s.plant_world safe)
              (ap (λ w. a.tick_app now w) world, (queue, abort)),
        λ before after m e bad.
            let found : any_unsafe is_safe monitors s.plant_world ≡ true =
              ap (λ l. any_unsafe is_safe l s.plant_world) e
              ∙ any_unsafe-some is_safe before after m s.plant_world bad in
            rw found,
      )
