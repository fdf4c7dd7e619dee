-- ===== src/Fork/Refusal.antt =====
-- A do_fork of kern/process/proc.c that is refused gives back all that it took.
use oscmp.Base.{
  ℕ, ◌<◌, ◌==◌, ◌≡◌, ◌≢◌, refl, Bool, Option, some, leb, asserted, arith, Bool-cases, inl, inr,
}
use oscmp.Process.{max_process}
use oscmp.Fork.Defs.{
  Kernel, Memory, Forked, refused, e_no_free_proc, no_mem, alloc_proc, free_proc, fork_kstack,
  do_fork,
}
use oscmp.Fork.Undone.{Restored, same-Restored, no_stack}
use oscmp.Fork.Tables.{stacked, files_refused}

unchanged :
    (k k' : Kernel) (a b : ℕ)
    → ◌≡◌ {A = Option (Forked × Kernel)} (some (refused a, k)) (some (refused b, k'))
    → k ≡ k'
unchanged k k' a b h = ground (arith, h)

kstack_refused :
    (mem : Memory) (clone_fs clone_vm : Bool) (k k' : Kernel) (e : ℕ)
    → k.family.sched.current ≢ mem.proc_at
    → k.filesp k.family.sched.current ≢ 0
    → 0 < (k.files (k.filesp k.family.sched.current)).files_count
    → mem.files_at ≢ k.filesp k.family.sched.current
    → fork_kstack mem clone_fs clone_vm (alloc_proc mem.proc_at k) ≡ some (refused e, k')
    → Restored mem k k'
unfolding stacked
kstack_refused mem clone_fs clone_vm k k' e other there counted apart h =
    elim (Bool-cases (mem.stack_at == 0)) [
      | inl no_pages ↦
          rw (← (unchanged (free_proc (alloc_proc mem.proc_at k)) k' no_mem e (rw no_pages at h)))
            (no_stack mem k)
      | inr pages ↦
          files_refused mem k (k.filesp k.family.sched.current) other refl (ground (arith, there))
            counted apart clone_vm e k' clone_fs (rw pages at h)
    ]

-- If the running process is another one than the new one, its table of files has a positive count,
-- and the memory for a new table is not that table: a do_fork that is refused has given back as many
-- processes, stacks, tables of files, address spaces, page directories, areas and pages below areas
-- as it has taken, no count of references or openings of an inode has changed, nor any table of files
-- or address space but those of the memory given back, nor the lists and the number of the processes,
-- the run queue, or another process with its table, address space and children.
pub do_fork-Restored :
    (mem : Memory) (clone_fs clone_vm : Bool) (k k' : Kernel) (e : ℕ)
    → k.family.sched.current ≢ mem.proc_at
    → k.filesp k.family.sched.current ≢ 0
    → 0 < (k.files (k.filesp k.family.sched.current)).files_count
    → mem.files_at ≢ k.filesp k.family.sched.current
    → do_fork mem clone_fs clone_vm k ≡ some (refused e, k')
    → Restored mem k k'
unfolding do_fork
do_fork-Restored mem clone_fs clone_vm k k' e other there counted apart h =
    let k₁ = alloc_proc mem.proc_at k in
    let kstack_refused = kstack_refused mem clone_fs clone_vm k k' e other there counted apart in
    elim (Bool-cases (leb max_process k.family.nr_process)) [
      | inl full ↦ rw (← (unchanged k k' e_no_free_proc e (rw full at h))) (same-Restored mem k)
      | inr room ↦ elim (Bool-cases (mem.proc_at == 0)) [
        | inl nothing ↦
            rw (← (unchanged k k' no_mem e (rw nothing at (rw room at h)))) (same-Restored mem k)
        | inr some_proc ↦ kstack_refused (
            asserted ((k₁.family.sched.procs k₁.family.sched.current).wait_state == 0)
              (fork_kstack mem clone_fs clone_vm k₁) (rw some_proc at (rw room at h)))
      ]
    ]
