-- ===== src/Wasi/FdTable/Examples.antt =====
-- Runs of the descriptor table, and its theorems at concrete tables.
use tarbox.Base.{negsuc, ℕ, ◌≡◌, ◌↔◌, [], refl, bytes, false, ok, arith}
use tarbox.Wasi.FdTable.{
  FileDescriptor, read_only, new_descriptor, seek, FdTable, new_table, allocate, insert,
}
use tarbox.Wasi.FdTable.Laws.{base, Lands, moved, seek_exact}

abbrev file : FileDescriptor
file = record (new_descriptor 1 (bytes "/test.txt") read_only false) { position = 100 }

abbrev opened : FdTable
unfolding allocate insert
opened = (allocate file new_table).1

allocate-new : (allocate file new_table).0 ≡ 3
unfolding allocate
allocate-new = refl

seek_back : seek file (negsuc 49) 1 ≡ (ok 50, record file { position = 50 })
unfolding seek
seek_back = refl

seek_exact_example :
    ((p : ℕ) → ((seek file (negsuc 49) 1).0 ≡ ok p) ↔ Lands (base file 1) (negsuc 49) p)
    × ((seek file (negsuc 49) 1).1 ≡ moved file (seek file (negsuc 49) 1).0)
seek_exact_example = seek_exact file (negsuc 49) 1 (omega arith)

abbrev full : FdTable
full = record { fds = []; next_fd = 4294967295 }
