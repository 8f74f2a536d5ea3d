-- ===== src/Backend/Leases.antt =====
-- The threads that load and unload one backend, and its leases: inference_runtime/registry.py.
use llama.Prelude.{ℕ, suc, ◌<◌, Bool, true, false, Option, none, some, String, ok, ◌≡◌, refl, arith}
use llama.Backend.Registry.{
  BackendLifecycle, loading, ready, draining, Entry, begin_acquire, load_failed, load_finished,
  release_entry, begin_unload, finish_unload, loads, leases, BackendDescriptor, new_entry,
}

-- An entry of the table, how many threads are between the sections of a load and of an unload of it, and
-- how many leases have been handed out and not returned for its generation.
pub record World : Type 0 where
  pub entry : Entry
  pub loaders : ℕ
  pub unloaders : ℕ
  pub out : ℕ

-- One section under the lock, by any thread. The later sections of a load and of an unload are those of
-- a thread that began one.
pub data Step : World → World → Type 0 where
  acquires_lease :
      (w : World) (g now : ℕ)
      → (begin_acquire w.entry now).1 ≡ leases g
      → Step w (record w { entry = (begin_acquire w.entry now).0; out = suc w.out })
  begins_load :
      (w : World) (now : ℕ)
      → (begin_acquire w.entry now).1 ≡ loads
      → Step w (record w { entry = (begin_acquire w.entry now).0; loaders = suc w.loaders })
  fails_load :
      (w : World) (n : ℕ) (reason : String)
      → w.loaders ≡ suc n
      → Step w (record w { entry = load_failed w.entry reason; loaders = n })
  finishes_load :
      (w : World) (n i now : ℕ)
      → w.loaders ≡ suc n
      → Step w (record w { entry = load_finished w.entry i now; loaders = n; out = 1 })
  returns_lease :
      (w : World) (n now : ℕ)
      → w.out ≡ suc n
      → Step w (record w { entry = (release_entry w.entry w.entry.generation now).0; out = n })
  returns_stale :
      (w : World) (g now : ℕ)
      → g < w.entry.generation
      → Step w (record w { entry = (release_entry w.entry g now).0 })
  begins_unload :
      (w : World) (f : Entry)
      → begin_unload w.entry ≡ ok (f, true)
      → Step w (record w { entry = f; unloaders = suc w.unloaders })
  finishes_unload :
      (w : World) (n now : ℕ) (stopped : Bool)
      → w.unloaders ≡ suc n
      → Step w (record w { entry = finish_unload w.entry stopped now; unloaders = n })

abbrev loading_threads : BackendLifecycle → ℕ
loading_threads loading = 1
loading_threads _ = 0

abbrev unloading_threads : BackendLifecycle → ℕ
unloading_threads draining = 1
unloading_threads _ = 0

abbrev is_some : Option ℕ → Bool
is_some none = false
is_some (some i) = true

abbrev Leased : BackendLifecycle → Entry → ℕ → Type 0
Leased ready e n = is_some e.instance_ ≡ true
Leased _ e n = n ≡ 0

-- The counter is the number of leases that are out, only a ready backend is leased, and it has an
-- instance; one thread loads the backend exactly while the entry is loading, and one unloads it exactly
-- while it is draining.
pub record IsHeld (w : World) : Type 0 where
  pub counted : w.entry.active_leases ≡ w.out
  pub loads_once : w.loaders ≡ loading_threads w.entry.lifecycle
  pub unloads_once : w.unloaders ≡ unloading_threads w.entry.lifecycle
  pub only_ready : Leased w.entry.lifecycle w.entry w.out

-- Every section under the lock keeps the lease counter of a backend equal to the leases that are out,
-- leaves leases only on a ready backend with an instance, and never leaves two threads to load or two to
-- unload it, or one of each.
pub step-IsHeld : {w v : World} → Step w v → IsHeld w → IsHeld v
unfolding begin_acquire load_failed load_finished release_entry begin_unload finish_unload
step-IsHeld (acquires_lease w g now h) i = record {
  counted = ground (arith, i.counted);
  loads_once = ground (arith, i.loads_once);
  unloads_once = ground (arith, i.unloads_once);
  only_ready = ground (arith, i.only_ready);
}
step-IsHeld (begins_load w now h) i = record {
  counted = ground (arith, i.counted);
  loads_once = ground (arith, i.loads_once);
  unloads_once = ground (arith, i.unloads_once);
  only_ready = ground (arith, i.only_ready);
}
step-IsHeld (fails_load w n reason h) i = record {
  counted = i.counted;
  loads_once = ground (arith, i.loads_once);
  unloads_once = ground (arith, i.loads_once, i.unloads_once);
  only_ready = ground (arith, i.loads_once, i.only_ready);
}
step-IsHeld (finishes_load w n m now h) i = record {
  counted = refl;
  loads_once = ground (arith, i.loads_once);
  unloads_once = ground (arith, i.loads_once, i.unloads_once);
  only_ready = refl;
}
step-IsHeld (returns_lease w n now h) i = record {
  counted = ground (arith, i.counted);
  loads_once = ground (arith, i.loads_once);
  unloads_once = ground (arith, i.unloads_once);
  only_ready = ground (arith, i.only_ready);
}
step-IsHeld (returns_stale w g now h) i = record {
  counted = ground (arith, i.counted);
  loads_once = ground (arith, i.loads_once);
  unloads_once = ground (arith, i.unloads_once);
  only_ready = ground (arith, i.only_ready);
}
step-IsHeld (begins_unload w f h) i = record {
  counted = ground (arith, i.counted);
  loads_once = ground (arith, i.loads_once);
  unloads_once = ground (arith, i.unloads_once);
  only_ready = ground (arith, i.counted, i.only_ready);
}
step-IsHeld (finishes_unload w n now stopped h) i = record {
  counted = i.counted;
  loads_once = ground (arith, i.loads_once, i.unloads_once);
  unloads_once = ground (arith, i.unloads_once);
  only_ready = ground (arith, i.unloads_once, i.only_ready);
}

pub data Steps (w : World) : World → Type 0 where
  none_yet : Steps w w
  next : {u v : World} → Steps w u → Step u v → Steps w v

abbrev pub registered : BackendDescriptor → ℕ → World
registered d now = record { entry = new_entry d now; loaders = 0; unloaders = 0; out = 0 }
