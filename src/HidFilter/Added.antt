-- ===== src/HidFilter/Added.antt =====
-- The filter's devices in memory while other devices are created, configured and removed.
use wdk_safe.Base.{ℕ, ◌+◌, ◌%◌, ◌^◌, ◌≡◌, some, List, [], ◌∷◌, ◌∙◌}
use wdk_safe.Memory.{Ptr, Memory, AreDisjoint, read_le}
use wdk_safe.Memory.Laws.{read_le-store_disjoint}
use wdk_safe.Machine.{World, Kernel, io_delete_device}
use wdk_safe.Wdm.{WdkSys}
use wdk_safe.HidFilter.Configure.{Fields, configured, with_lower, flags_apart}
use wdk_safe.HidFilter.Unload.{Pair, Entry, Absent, Chain, LeavesOthers}

-- A change of memory that the entries of the devices survive.
abbrev pub Kept : WdkSys → List Pair → Memory → Memory → Type 0
Kept sys [] m m' = Unit
Kept sys (p ∷ ps) m m' =
    ((next : Ptr) → Entry sys p next m → Entry sys p next m') × Kept sys ps m m'

module _ (sys : WdkSys) where
  pub Kept-trans :
      (ps : List Pair) (m m' m'' : Memory)
      → Kept sys ps m m'
      → Kept sys ps m' m''
      → Kept sys ps m m''
  Kept-trans [] m m' m'' k l = tt
  Kept-trans (p ∷ ps) m m' m'' (k, ks) (l, ls) =
      (λ next e. l next (k next e), Kept-trans ps m m' m'' ks ls)

  pub Chain-Kept :
      (ps : List Pair) (device : Ptr) (m m' : Memory)
      → Kept sys ps m m'
      → Chain sys ps device m
      → Chain sys ps device m'
  Chain-Kept [] device m m' k c = c
  Chain-Kept (p ∷ ps) device m m' (k, ks) (e, there, away, (next, entry, rest)) =
      (e, there, away, (next, k next entry, Chain-Kept ps next m m' ks rest))

  pub deletion-Kept :
      (kernel : Kernel)
      → LeavesOthers sys kernel
      → (ps : List Pair) (gone : Ptr) (w : World) → Absent gone ps
      → Kept sys ps w.mem (kernel (io_delete_device gone) w).mem
  deletion-Kept kernel leaves [] gone w a = tt
  deletion-Kept kernel leaves (p ∷ ps) gone w (ne, a) =
      (λ next e. leaves.on_delete gone w p next ne e, deletion-Kept kernel leaves ps gone w a)

  module _ (filter lower : Ptr) (w : World)
      (f : Fields sys w.debug_assertions filter lower w.mem) where
    -- The n addresses from `p` on are none that `configure` writes.
    abbrev pub Outside : ℕ → Ptr → Type 0
    Outside n p =
        AreDisjoint 8 f.extension n p
        × AreDisjoint 1 (filter + sys.stack_size) n p
        × AreDisjoint 4 (filter + sys.flags) n p

    pub configured-Outside :
        (n : ℕ) (p : Ptr)
        → Outside n p
        → read_le n p (configured sys filter lower w f) ≡ read_le n p w.mem
    configured-Outside n p (a, b, c) = rw (
      flags_apart sys filter lower w f n p c,
      read_le-store_disjoint 1 n (filter + sys.stack_size) p ((f.size + 1) % 2 ^ 8)
          (with_lower sys filter lower w f) b,
      read_le-store_disjoint 8 n f.extension p lower w.mem a,
    )

    -- Nor are the fields of these devices.
    abbrev pub Spared : List Pair → Type 0
    Spared [] = Unit
    Spared (p ∷ ps) =
        Outside 8 (p.filter + sys.next_device)
        × Outside 8 (p.filter + sys.device_extension)
        × ((x : Ptr) → read_le 8 (p.filter + sys.device_extension) w.mem ≡ some x → Outside 8 x)
        × Spared ps

    pub configured-Kept :
        (ps : List Pair) → Spared ps → Kept sys ps w.mem (configured sys filter lower w f)
    configured-Kept [] s = tt
    configured-Kept (p ∷ ps) (a, b, c, s) = (
      λ next e. record {
        extension = e.extension;
        next_field = configured-Outside 8 (p.filter + sys.next_device) a ∙ e.next_field;
        extension_field =
            configured-Outside 8 (p.filter + sys.device_extension) b ∙ e.extension_field;
        lower_field =
            configured-Outside 8 e.extension (c e.extension e.extension_field) ∙ e.lower_field;
      },
      configured-Kept ps s,
    )
