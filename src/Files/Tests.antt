-- ===== src/Files/Tests.antt =====
-- The operations on descriptors over a file system with one file of ten bytes.
use oscmp.Base.{
  ℕ, ◌+◌, ◌-◌, ◌≡◌, sym, ap, zero, suc, true, false, [], ◌∷◌, some, refl, arith, if◌then◌else◌,
  ◌==◌,
}
use oscmp.Iobuf.{Iobuf}
use oscmp.Files.Defs.{Status, fd_none, fd_opened, File, Ret, ok, err, Vfs, Files}
use oscmp.Files.Ops.{file_open}
use oscmp.Files.Slots.{some_inj, IsValid}
use oscmp.Files.Opening.{Outcome, Given, file_open-Outcome}

-- The bytes that `op` takes from or gives to the file.
step : ℕ → Iobuf → ℕ → ℕ × Iobuf × ℕ
step node iob s = (0, record iob { io_resid = iob.io_resid - 10 }, s)

-- The state counts the references to inode 7.
abbrev one_file : Vfs
one_file = record {
  Fs = ℕ;
  vfs_open = λ path flags s. (if path == 1 then some (ok 7, s + 1) else some (err 16, s));
  vfs_close = λ node s. some (s - 1);
  vop_fstat = λ node s. some (0, 10, s);
  vop_read = step;
  vop_write = step;
  vop_fsync = λ node s. (0, s);
  vop_share = λ node s. s + 1;
}

abbrev file : ℕ → Status → ℕ → File
file i status count = record {
  status = status;
  readable = true;
  writable = false;
  fd = i;
  offset = 4;
  node = 7;
  open_count = count;
}

value : Ret → ℕ
value (ok n) = n
value (err e) = 0

abbrev table : Files one_file
table = record { fd_array = file 0 fd_opened 1 ∷ file 1 fd_none 0 ∷ []; fs = 1 }

table-IsValid : IsValid table.fd_array
table-IsValid zero f e = rw (sym (some_inj e)) (record { numbered = refl; counted = omega arith })
table-IsValid (suc zero) f e = rw (sym (some_inj e)) (record { numbered = refl; counted = refl })
table-IsValid (suc (suc i)) f e = grind (arith, e)

file_open-Outcome_example :
    (r : Ret) × (t' : Files one_file) × (file_open one_file 1 0x20 table ≡ some (r, t'))
    × IsValid t'.fd_array
    × Outcome 0x20 table.fd_array r t'.fd_array
unfolding value
file_open-Outcome_example =
    file_open-Outcome one_file 1 0x20 table table-IsValid (ok 7, 2) refl given
  where
    given : (node s : ℕ) → ◌≡◌ {A = Ret × ℕ} (ok 7, 2) (ok node, s) → Given one_file node s
    given node s e =
        let seven : 7 ≡ node = ap (λ r. value r.0) e in
        (omega arith, ((0, 10, s), refl, (s - 1, refl)))
