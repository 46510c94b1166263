-- ===== src/TaskResult/View/Memory/Laws.antt =====
-- What the memory panel shows, and what it hides.
use mini_drop_test.Base.{◌≡◌, ◌⊎◌, refl, false, Option, none, arith, String}
use mini_drop_test.Domain.{HotmethodTask}
use mini_drop_test.TaskResult.Panels.{memory, empty_panel}
use mini_drop_test.TaskResult.View.Memory.{
  MemoryInput, memory_tab, memory_content, memory_missing, has_memory,
}

-- Without a picture, data or a running request, the panel is that of a missing artifact, the same
-- whatever error the request for the picture has left.
pub memory_tab-hides_error :
    (task : Option HotmethodTask) (d : MemoryInput) (error : String)
    → has_memory d ≡ false
    → (memory_tab task (record d { memray_error = error }) ≡ memory_tab task d)
      × (memory_tab task d ≡ memory_missing (empty_panel task memory))
unfolding memory_tab
memory_tab-hides_error task d error h = rw h (refl, refl)

-- Of the spinner, the picture and the warning that it could not be loaded, the panel shows at most
-- one.
pub memory_content-exclusive :
    (d : MemoryInput)
    → (((memory_content d).spinner ≡ false)
        ⊎ (((memory_content d).frame ≡ none) × ((memory_content d).warning ≡ none)))
      × (((memory_content d).frame ≡ none) ⊎ ((memory_content d).warning ≡ none))
unfolding memory_content
memory_content-exclusive d = ground arith
