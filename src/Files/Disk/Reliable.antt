-- ===== src/Files/Disk/Reliable.antt =====
-- A disk on which no operation fails, and one on which a close loses no bytes.
use neko_chat.Common.{ℕ, ◌≡◌, refl, true, false, none, [], if_either}
use neko_chat.Common.Text.{Bytes}
use neko_chat.Common.Assoc.{bytes_key, put}
use neko_chat.Files.Disk.{Disk, next_ok, tick, open_trunc, write_at, close, rename, remove}

-- What is written to a stream is on the disk once it is closed.
abbrev pub FlushesAll : Disk → Type 0
FlushesAll d = (n : ℕ) → d.unflushed n ≡ none

abbrev pub IsReliable : Disk → Type 0
IsReliable d = ((n : ℕ) → d.fails n ≡ false) × FlushesAll d

pub next_ok-IsReliable : (d : Disk) → IsReliable d → next_ok d ≡ true
unfolding next_ok
next_ok-IsReliable d h = rw h.0 refl

pub tick-IsReliable : (d : Disk) → IsReliable d → IsReliable (tick d)
unfolding tick
tick-IsReliable d h = (h.0, h.1)

pub open_trunc-IsReliable :
    (path : Bytes) (d : Disk) → IsReliable d → IsReliable (open_trunc path d)
unfolding open_trunc
open_trunc-IsReliable path d h = rw h.0 (h.0, h.1)

pub write_at-IsReliable :
    (path : Bytes) (pos : ℕ) (bytes : Bytes) (d : Disk)
    → IsReliable d
    → IsReliable (write_at path pos bytes d)
unfolding write_at
write_at-IsReliable path pos bytes d h = rw h.0 (h.0, h.1)

pub close-FlushesAll : (path : Bytes) (d : Disk) → FlushesAll d → FlushesAll (close path d)
unfolding close tick
close-FlushesAll path d h = rw (h d.operations, close) h

pub rename-FlushesAll : (from to : Bytes) (d : Disk) → FlushesAll d → FlushesAll (rename from to d)
unfolding rename tick
rename-FlushesAll from to d h = if_either FlushesAll (next_ok d) _ _ h h

pub remove-FlushesAll : (path : Bytes) (d : Disk) → FlushesAll d → FlushesAll (remove path d)
unfolding remove
remove-FlushesAll path d h = h

pub write_at-FlushesAll :
    (path : Bytes) (pos : ℕ) (bytes : Bytes) (d : Disk)
    → FlushesAll d
    → FlushesAll (write_at path pos bytes d)
unfolding write_at tick
write_at-FlushesAll path pos bytes d h = if_either FlushesAll (next_ok d) _ _ h h

pub open_trunc-FlushesAll :
    (path : Bytes) (d : Disk) → FlushesAll d → FlushesAll (open_trunc path d)
unfolding open_trunc tick
open_trunc-FlushesAll path d h = if_either FlushesAll (next_ok d) _ _ h h

pub tick-FlushesAll : (d : Disk) → FlushesAll d → FlushesAll (tick d)
unfolding tick
tick-FlushesAll d h = h

-- A close that flushes all changes no file.
pub files-close : (path : Bytes) (d : Disk) → FlushesAll d → (close path d).files ≡ d.files
unfolding close tick
files-close path d h = rw (h d.operations, close) refl

pub close-IsReliable : (path : Bytes) (d : Disk) → IsReliable d → IsReliable (close path d)
unfolding close tick
close-IsReliable path d h = rw (h.1 d.operations, close) (h.0, h.1)

pub files-tick : (d : Disk) → (tick d).files ≡ d.files
unfolding tick
files-tick d = refl

pub files-open_trunc :
    (path : Bytes) (d : Disk) → next_ok d ≡ true → (open_trunc path d).files ≡ put path [] d.files
unfolding open_trunc
files-open_trunc path d ok = rw ok refl
