-- ===== src/Sysfile/Tests.antt =====
-- Reads and writes of a process with four open descriptors.
use oscmp.Base.{ℕ, ◌≡◌, ◌-◌, refl, true, none, some, [], ◌∷◌, arith, pos}
use oscmp.Iobuf.{Iobuf}
use oscmp.Files.{fd_opened, File, ok, Vfs, Files}
use oscmp.Sysfile.Defs.{sysfile_read, sysfile_write}
use oscmp.Sysfile.Read.{sysfile_read_overruns}
use oscmp.Sysfile.Write.{sysfile_write_spins}

-- Ten bytes move at a time.
step : ℕ → Iobuf → ℕ → ℕ × Iobuf × ℕ
step node iob s = (0, record iob { io_resid = iob.io_resid - 10 }, s)

abbrev system : Vfs
system = record {
  Fs = ℕ;
  vfs_open = λ path flags s. some (ok 7, s);
  vfs_close = λ node s. some s;
  vop_fstat = λ node s. some (0, 10, s);
  vop_read = step;
  vop_write = step;
  vop_fsync = λ node s. (0, s);
  vop_share = λ node s. s;
}

abbrev opened : ℕ → ℕ → File
opened i at = record {
  status = fd_opened;
  readable = true;
  writable = true;
  fd = i;
  offset = at;
  node = 7;
  open_count = 1;
}

abbrev files : ℕ → Files system
files at = record { fd_array = opened 0 0 ∷ opened 1 0 ∷ opened 2 at ∷ opened 3 0 ∷ []; fs = 0 }

sysfile_read_overruns_example :
    sysfile_read system (λ base len. true) 2 (pos 2) 100 800 5000 (files 0)
    ≡ some (ok 5000, record { at = 800; size = 5000 } ∷ [], files 10)
unfolding step oscmp.Files.file_testfd oscmp.Files.fd2file oscmp.Files.entry_at
    oscmp.Files.file_read oscmp.Files.transfer_at oscmp.Files.fd_array_acquire oscmp.Files.advance
    oscmp.Files.fd_array_release oscmp.Files.drop_count oscmp.Iobuf.iobuf_init
sysfile_read_overruns_example =
    sysfile_read_overruns system (λ base len. true) 0 100 800 5000 48 (files 0) (files 10) refl
      (omega arith) refl refl

sysfile_write_spins_example :
    sysfile_write system (λ base len. true) 9 (pos 3) 100 800 5000 (files 0) ≡ none
unfolding oscmp.Files.file_testfd oscmp.Files.fd2file oscmp.Files.entry_at
sysfile_write_spins_example =
    sysfile_write_spins system (λ base len. true) 9 3 100 800 5000 (files 0) (omega arith) refl
      (omega arith) refl
