-- ===== src/HidFilter/Stack.antt =====
-- A stack of filters above another driver: what becomes of a request that enters at the top.
use mathlib.Core.Path.{fun_ext, subst}
use wdk_safe.Base.{
  ℕ, ◌+◌, ◌-◌, ◌%◌, ◌^◌, ◌<◌, ◌≡◌, ◌≢◌, sym, ap, ◌∙◌, some, List, [], ◌∷◌, ℤ, arith, inl, inr,
  Bool-cases, leb, ltb, ◌&&◌, ◌==◌,
}
use wdk_safe.Memory.{Ptr, null, Memory, read_le, store, IsBytes}
use wdk_safe.Memory.Laws.{
  read_le-store, read_le-store_disjoint, read_le-lt, store-outside, store-inside, store-same,
}
use wdk_safe.Machine.{World, Cmd, ok, Kernel, po_start_next_power_irp}
use wdk_safe.Machine.Access.{load_lem}
use wdk_safe.Driver.Defaults.{Major, method}
use wdk_safe.Thunk.{dispatch_fn}
use wdk_safe.Thunk.Dispatch.{request_of, device_of, dispatch_fn-returns}
use wdk_safe.Wdm.{WdkSys, irp_current_stack}
use wdk_safe.Wdm.Completion.{PrintsOnly}
use wdk_safe.HidFilter.{driver}
use wdk_safe.HidFilter.Skip.{HasNext, skipped}
use wdk_safe.HidFilter.Forward.{HasLower, Passes, ForwardedOnce, Filtered, pass, filtered-Passes}

module _ (sys : WdkSys) (irp : Ptr) where
  -- What `IofCallDriver` and `PoCallDriver` do to the IRP: the stack location before the current one
  -- becomes the current one.
  abbrev pub advanced : ℕ → ℕ → Memory → Memory
  advanced location stack m =
      store 8 (irp + sys.current_stack_location) (stack - sys.stack_location_size)
        (store 1 (irp + sys.current_location) ((location + 255) % 2 ^ 8) m)

  module _ (location stack : ℕ) (m : Memory) (next : HasNext sys irp location stack m)
      (bytes : IsBytes m) (fits : stack + sys.stack_location_size < 2 ^ 64) where
    abbrev cl : Ptr
    cl = irp + sys.current_location

    abbrev csl : Ptr
    csl = irp + sys.current_stack_location

    -- Memory between the two stores of the skip, and between those of the call.
    abbrev counted : Memory
    counted = store 1 cl ((location + 1) % 2 ^ 8) m

    abbrev uncounted : Memory
    uncounted = store 1 cl location (skipped sys irp location stack m)

    pub skipped_location :
        read_le 1 cl (skipped sys irp location stack m) ≡ some ((location + 1) % 2 ^ 8)
    skipped_location =
        read_le-store_disjoint 8 1 csl cl (stack + sys.stack_location_size) counted
          (elim next.apart [ inl a ↦ inr a | inr b ↦ inl b ])
        ∙ read_le-store 1 cl ((location + 1) % 2 ^ 8) m (omega arith)

    pub skipped_stack :
        read_le 8 csl (skipped sys irp location stack m) ≡ some (stack + sys.stack_location_size)
    skipped_stack = read_le-store 8 csl (stack + sys.stack_location_size) counted fits

    -- A byte is in one of the two fields, or the stores leave it alone.
    restored : (q : Ptr) → store 8 csl stack uncounted q ≡ m q
    restored q = elim (Bool-cases (leb csl q && ltb q (csl + 8))) [
      | inl inside ↦
          store-inside 8 csl stack uncounted m q (ground arith) (ground arith)
          ∙ store-same 8 csl stack m q bytes next.stack_field
      | inr outside ↦ elim (Bool-cases (cl == q)) [
        | inl here ↦
            store-outside 8 csl stack uncounted q (ground arith)
            ∙ store-inside 1 cl location (skipped sys irp location stack m) m q (ground arith)
                (ground arith)
            ∙ store-same 1 cl location m q bytes next.location_field
        | inr elsewhere ↦
            store-outside 8 csl stack uncounted q (ground arith)
            ∙ store-outside 1 cl location (skipped sys irp location stack m) q (ground arith)
            ∙ store-outside 8 csl (stack + sys.stack_location_size) counted q (ground arith)
            ∙ store-outside 1 cl ((location + 1) % 2 ^ 8) m q (ground arith)
      ]
    ]

    -- The call takes back what skipping did, so that the lower driver finds the IRP as the filter
    -- found it.
    pub advanced-skipped :
        advanced
          ((location + 1) % 2 ^ 8)
          (stack + sys.stack_location_size)
          (skipped sys irp location stack m)
        ≡ m
    advanced-skipped =
        let small = read_le-lt 1 cl m location bytes next.location_field in
        let back : ((location + 1) % 2 ^ 8 + 255) % 2 ^ 8 ≡ location = omega arith in
        let low : stack + sys.stack_location_size - sys.stack_location_size ≡ stack = omega arith in
        rw (back, low) (fun_ext restored)

-- The device at the top.
abbrev pub top : List Ptr → Ptr → Ptr
top [] bottom = bottom
top (d ∷ ds) bottom = d

module _ (sys : WdkSys) (kernel : Kernel) (major : Major) (irp : Ptr) (m : Memory)
    (routine_of : Ptr → Ptr → Ptr → Cmd ℤ) where
  -- How a call to a lower device is answered: the IRP is advanced, and the device's dispatch routine
  -- for the major function runs.
  abbrev pub CallsRoutine : Ptr → Type 0
  CallsRoutine lower =
      (w w' : World) (location stack : ℕ) (status : ℤ)
      → read_le 1 (irp + sys.current_location) w.mem ≡ some location
      → read_le 8 (irp + sys.current_stack_location) w.mem ≡ some stack
      → routine_of lower lower irp (record w { mem = advanced sys irp location stack w.mem })
        ≡ ok status w'
      → ((kernel (pass major lower irp) w).status ≡ status)
        × ((kernel (pass major lower irp) w).mem ≡ w'.mem)

  -- A device of the filter, above another device.
  pub record IsLevel (device lower : Ptr) : Type 0 where
    pub device_there : device ≢ null
    pub below : HasLower sys (device_of device) lower m
    pub routine :
        routine_of device ≡ dispatch_fn (method (driver sys kernel) major) (irp_current_stack sys)
    pub calls : CallsRoutine lower

  abbrev pub IsStack : List Ptr → Ptr → Type 0
  IsStack [] bottom = Unit
  IsStack (d ∷ ds) bottom = IsLevel d (top ds bottom) × IsStack ds bottom

  -- The way of a request down the stack: every filter finds it as it was at the top, passes it on
  -- once and leaves memory as the device below left it, and the bottom driver answers it.
  pub data Descends (bottom : Ptr) (status : ℤ) : List Ptr → World → World → Type 0 where
    answers :
        {w w' : World}
        → w.mem ≡ m
        → routine_of bottom bottom irp w ≡ ok status w'
        → Descends bottom status [] w w'
    passes :
        {d : Ptr} {ds : List Ptr} {w w' v v' : World}
        → w.mem ≡ m
        → routine_of d d irp w ≡ ok status w'
        → ForwardedOnce irp w w'
        → Descends bottom status ds v v'
        → w'.mem ≡ v'.mem
        → Descends bottom status (d ∷ ds) w w'

  -- The answer of the bottom driver, whatever was logged before.
  abbrev pub Answers : Ptr → ℤ → Memory → Type 0
  Answers bottom status m' =
      (w : World)
      → w.mem ≡ m
      → (w' : World) × (routine_of bottom bottom irp w ≡ ok status w') × (w'.mem ≡ m')

  module _ (prints : PrintsOnly sys kernel)
      (starts : (p : Ptr) (w : World) → (kernel (po_start_next_power_irp p) w).mem ≡ w.mem)
      (filtered : Filtered major) (location stack : ℕ) (irp_there : irp ≢ null)
      (stack_there : stack ≢ null) (next : HasNext sys irp location stack m) (bytes : IsBytes m)
      (fits : stack + sys.stack_location_size < 2 ^ 64) (bottom : Ptr) (status : ℤ) (m' : Memory)
      (served : Answers bottom status m') where
    -- The run of one filter.
    abbrev passed :
        (d lower : Ptr)
        → HasLower sys (device_of d) lower m
        → (w : World) → w.mem ≡ m
        → Passes sys kernel
            (device_of d)
            (request_of irp stack)
            location
            stack
            lower
            (pass major lower irp)
            w
            (method (driver sys kernel) major (device_of d) (request_of irp stack) w)
    passed d lower below w same =
        filtered-Passes sys kernel (device_of d) (request_of irp stack) location stack lower prints
          starts w (subst (HasNext sys irp location stack) (sym same) next)
          (subst (HasLower sys (device_of d) lower) (sym same) below) major filtered

    level_returns :
        (d lower : Ptr) (level : IsLevel d lower) (w : World) (same : w.mem ≡ m)
        → let p = passed d lower level.below w same in
          (kernel (pass major lower irp) p.before).status ≡ status
          → routine_of d d irp w ≡ ok status p.after
    unfolding irp_current_stack
    level_returns d lower level w same answer =
        let p = passed d lower level.below w same in
        ap (λ (f : Ptr → Ptr → Cmd ℤ). f d irp w) level.routine
        ∙ dispatch_fn-returns (method (driver sys kernel) major) (irp_current_stack sys) d irp stack
            w
            (load_lem 8 (irp + sys.current_stack_location) stack w
              (ap (read_le 8 (irp + sys.current_stack_location)) same ∙ next.stack_field))
            _ p.after level.device_there irp_there stack_there p.ends
        ∙ ap (λ (s : ℤ). ok s p.after) answer

    -- The run of the topmost routine, with the way that the request takes below it.
    abbrev pub IsServed : List Ptr → World → Type 0
    IsServed ds w =
        (w' : World) × (routine_of (top ds bottom) (top ds bottom) irp w ≡ ok status w')
        × (w'.mem ≡ m')
        × Descends bottom status ds w w'

    -- A request that enters a stack of filters, however many, is passed on by each of them once, in
    -- order, and answered by the bottom driver: the topmost routine returns the status of the bottom
    -- driver and leaves memory as that did, and each driver on the way finds memory as it was at the
    -- top, so that every one of them sees the same stack location. Conditions: the filters' extensions
    -- lead down the stack, a call to a lower device advances the IRP and runs the routine of that
    -- device, printing and `PoStartNextPowerIrp` change no memory, the filter overrides the method,
    -- the IRP leads to its current stack location and has one left, whose address fits 64 bits,
    -- memory holds bytes, and the bottom driver answers, whatever was logged.
    pub stack-IsServed :
        (ds : List Ptr) → IsStack ds bottom → (w : World) → w.mem ≡ m → IsServed ds w
    stack-IsServed [] levels w same =
        let (w', run, after) = served w same in (w', run, after, answers same run)
    stack-IsServed (d ∷ ds) (level, levels) w same =
        let lower = top ds bottom in
        let p = passed d lower level.below w same in
        let called : p.before.mem ≡ skipped sys irp location stack m =
          p.before_mem ∙ ap (skipped sys irp location stack) same in
        let location' = (location + 1) % 2 ^ 8 in
        let stack' = stack + sys.stack_location_size in
        let v = record p.before { mem = advanced sys irp location' stack' p.before.mem } in
        let found : v.mem ≡ m =
          ap (advanced sys irp location' stack') called
          ∙ advanced-skipped sys irp location stack m next bytes fits in
        let (v', run, after, descends) = stack-IsServed ds levels v found in
        let (answer, left) =
          level.calls p.before v' location' stack' status
            (ap (read_le 1 (irp + sys.current_location)) called
              ∙ skipped_location sys irp location stack m next bytes fits)
            (ap (read_le 8 (irp + sys.current_stack_location)) called
              ∙ skipped_stack sys irp location stack m next bytes fits)
            run in
        let returns = level_returns d lower level w same answer in
        let kept = p.after_mem ∙ left in
        (p.after, returns, kept ∙ after, passes same returns p.once descends kept)
