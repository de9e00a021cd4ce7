-- ===== src/Request/Parameters.antt =====
-- Reading the device-control parameters that the I/O manager left in the stack location.
use wdk_safe.Base.{ℕ, ◌+◌, ◌^◌, ◌≤◌, ◌<◌, ◌≡◌, ◌⊎◌, ◌∙◌, none, some, ◌==◌, if◌then◌else◌, arith}
use wdk_safe.Ioctl.{IoControlCode, IsCode, IoStackOffsets}
use wdk_safe.Memory.{Ptr, Memory, read_le, store, AreDisjoint}
use wdk_safe.Memory.Laws.{read_le-store, read_le-store_disjoint}
use wdk_safe.Machine.Access.{load_lem}
use wdk_safe.Machine.{World, ok, ◌>>=◌}
use wdk_safe.Request
use wdk_safe.Request.{IoRequest}

-- The two 32-bit fields of two offsets do not meet.
abbrev pub AreApart : ℕ → ℕ → Type 0
AreApart a b = (a + 4 ≤ b) ⊎ (b + 4 ≤ a)

-- The three fields of a stack location lie apart.
pub record IsLayout (o : IoStackOffsets) : Type 0 where
  pub code_input : AreApart o.ioctl_code o.input_buffer_length
  pub code_output : AreApart o.ioctl_code o.output_buffer_length
  pub input_output : AreApart o.input_buffer_length o.output_buffer_length

-- The stack location as the I/O manager fills it.
pub fill : IoStackOffsets → Ptr → IoControlCode → ℕ → ℕ → Memory → Memory
fill o stack code input output m = store 4 (stack + o.ioctl_code) code.value (
    store 4 (stack + o.input_buffer_length) input
      (store 4 (stack + o.output_buffer_length) output m))

module _ (o : IoStackOffsets) (stack : Ptr) (code : IoControlCode) (input output : ℕ) (m : Memory)
    (layout : IsLayout o) where
  output_field : Memory
  output_field = store 4 (stack + o.output_buffer_length) output m

  input_field : Memory
  unfolding output_field
  input_field = store 4 (stack + o.input_buffer_length) input output_field

  fill-code :
      IsCode code
      → read_le 4 (stack + o.ioctl_code) (fill o stack code input output m) ≡ some code.value
  unfolding fill
  fill-code h = read_le-store 4 (stack + o.ioctl_code) code.value _ h

  fill-input :
      input < 2 ^ 32
      → read_le 4 (stack + o.input_buffer_length) (fill o stack code input output m) ≡ some input
  unfolding fill input_field
  fill-input h =
      read_le-store_disjoint 4 4 (stack + o.ioctl_code) (stack + o.input_buffer_length) code.value
        input_field (apart layout.code_input)
      ∙ read_le-store 4 (stack + o.input_buffer_length) input output_field h
    where
      apart :
          AreApart o.ioctl_code o.input_buffer_length
          → AreDisjoint 4 (stack + o.ioctl_code) 4 (stack + o.input_buffer_length)
      apart h = grind arith

  fill-output :
      output < 2 ^ 32
      → read_le 4 (stack + o.output_buffer_length) (fill o stack code input output m) ≡ some output
  unfolding fill input_field
  fill-output h =
      read_le-store_disjoint 4 4 (stack + o.ioctl_code) (stack + o.output_buffer_length) code.value
        input_field (apart layout.code_output)
      ∙ read_le-store_disjoint 4 4 (stack + o.input_buffer_length) (stack + o.output_buffer_length)
          input output_field (apart layout.input_output)
      ∙ read_le-store 4 (stack + o.output_buffer_length) output m h
    where
      apart : {a b : ℕ} → AreApart a b → AreDisjoint 4 (stack + a) 4 (stack + b)
      apart h = grind arith

-- From a stack location filled with a 32-bit code and two 32-bit lengths, the three accessors read
-- exactly these, whatever was in memory before and wherever the fields lie, as long as they lie
-- apart; a code that is zero is read as none. Nothing is changed.
pub parameters-fill :
    (o : IoStackOffsets) (r : IoRequest) (code : IoControlCode) (input output : ℕ) (w : World)
    → IsLayout o
    → IsCode code
    → input < 2 ^ 32
    → output < 2 ^ 32
    → let w' = record w { mem = fill o r.stack code input output w.mem } in
      (Request.ioctl_code r o w' ≡ ok (if code.value == 0 then none else some code) w')
      × (Request.input_buffer_length r o w' ≡ ok input w')
      × (Request.output_buffer_length r o w' ≡ ok output w')
unfolding Request.ioctl_code Request.input_buffer_length Request.output_buffer_length
parameters-fill o r code input output w layout hc hi ho =
    let w' = record w { mem = fill o r.stack code input output w.mem } in
    (
      rw (
        load_lem 4 (r.stack + o.ioctl_code) code.value w'
            (fill-code o r.stack code input output w.mem layout hc),
        ◌>>=◌,
      ),
      load_lem 4 (r.stack + o.input_buffer_length) input w'
          (fill-input o r.stack code input output w.mem layout hi),
      load_lem 4 (r.stack + o.output_buffer_length) output w'
          (fill-output o r.stack code input output w.mem layout ho),
    )
