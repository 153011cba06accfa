-- ===== src/Run/Leave.antt =====
-- How `halt` in student-distrib/systemCalls/systemCalls.c gives the processor back to the parent.
use mathlib.Core.Path.{subst}
use linux_kernel_os.Prelude.{
  ◌==◌, if◌then◌else◌, Bool-cases, length, ℕ, ◌+◌, ◌<◌, ◌≡◌, refl, sym, ap, ◌∙◌, inl, inr, false,
  some, List, arith,
}
use linux_kernel_os.Prelude.Int.{pos, minus}
use linux_kernel_os.Keyboard.{Devices}
use linux_kernel_os.Strings.{IsString}
use linux_kernel_os.Process.{max_fd, FileDesc, Pcb, Processes, update}
use linux_kernel_os.Kernel.{
  Kernel, Frame, Message, exception, exitting, memory_of, pcb_of, fd_of, current_pid, with_pcb,
  SameTables,
}
use linux_kernel_os.Paging.{Paging, create_page_dir_entry, reclaim_video_memory}
use linux_kernel_os.Print.Rendering.{Outside}
use linux_kernel_os.Print.Shown.{IsString-same}
use linux_kernel_os.Files.Reachable.{AllAssigned}
use linux_kernel_os.Run.{
  resumed, page_of_process, mark_status, to_parent, resume_parent, leave_process,
}
use linux_kernel_os.Run.Release.{IsAssigned, close_loop_total}
use linux_kernel_os.Run.Rest.{SameRest, SameRest-refl, Ends, close_loop-SameRest}
use linux_kernel_os.Run.Speak.{
  IsReady, Spoken, say-Spoken, exception_text, exitting_text, exception-IsWords, exitting-IsWords,
  length-exception_text, length-exitting_text,
}

-- A message stands in the memory, outside of the screen and of the buffer of `printf`.
pub record IsHeld (f : Frame) (k : Kernel) (message : Message) (bs : List ℕ) : Type 0 where
  pub is : IsString (memory_of k) (f.messages message) bs
  pub out : Outside k.devices.console.video_mem f.conv (f.messages message) (length bs + 1)

-- `halt` can print its messages.
pub record CanLeave (f : Frame) (k : Kernel) : Type 0 where
  pub ready : IsReady f k.devices.console
  pub on_exception : IsHeld f k exception exception_text
  pub on_exit : IsHeld f k exitting exitting_text

-- A message stays where it is when another is printed.
pub Spoken-IsHeld :
    (f : Frame) (k k' : Kernel) (message : Message) (bs : List ℕ)
    → Spoken f k k'
    → IsHeld f k message bs
    → IsHeld f k' message bs
Spoken-IsHeld f k k' message bs s h = record {
  is =
      IsString-same (memory_of k) (memory_of k') (f.messages message) bs
        (λ a lo hi. s.kept a (ground (arith, h.out))) h.is;
  out = rw s.same_screen h.out;
}

-- The status that the parent gets.
abbrev pub final_status : ℕ → ℕ
final_status status = if status == 255 then 256 else status

-- The block of the process that ends is marked with its status, and nothing else of the processes and
-- of the page tables changes.
record Marked (f : Frame) (k : Kernel) (self status : ℕ) (k' : Kernel) : Type 0 where
  same_block :
      (p : ℕ)
      → pcb_of k' p ≡ (
          if self == p then record (pcb_of k self) { status = final_status status } else pcb_of k p)
  same_tables : SameTables k.processes k'.processes
  same_paging : k'.paging ≡ k.paging
  ready : IsReady f k'.devices.console
  on_exit : IsHeld f k' exitting exitting_text

mark_status-Marked :
    (f : Frame) (k : Kernel) (self status : ℕ)
    → CanLeave f k
    → (k' : Kernel) × (mark_status f k self status ≡ some k') × Marked f k self status k'
unfolding mark_status
mark_status-Marked f k self status can = elim (Bool-cases (status == 255)) [
  | inl fault ↦
      let marked = with_pcb k self (record (pcb_of k self) { status = status }) in
      let (spoken, done, s) =
        say-Spoken f exception (pos 0) marked exception_text can.ready exception-IsWords
          can.on_exception.is can.on_exception.out (omega (arith, length-exception_text)) in
      let processes = ap (λ (x : Kernel). x.processes) s.state in
      let held =
        Spoken-IsHeld f marked spoken exitting exitting_text s
          (record { is = can.on_exit.is; out = can.on_exit.out }) in
      (
        with_pcb spoken self (record (pcb_of spoken self) { status = 256 }),
        rw (fault, done) refl,
        record {
          same_block = λ p. ground (arith, processes, fault);
          same_tables = ground (arith, processes);
          same_paging = ap (λ (x : Kernel). x.paging) s.state;
          ready = s.ready;
          on_exit = record { is = held.is; out = held.out };
        },
      )
  | inr normal ↦ (
    with_pcb k self (record (pcb_of k self) { status = status }),
    rw normal refl,
    record {
      same_block = λ p. rw normal refl;
      same_tables = (refl, refl, refl, refl);
      same_paging = refl;
      ready = can.ready;
      on_exit = record { is = can.on_exit.is; out = can.on_exit.out };
    },
  )
]

resume_parent_total :
    (f : Frame) (k : Kernel) (self : ℕ)
    → IsReady f k.devices.console
    → IsHeld f k exitting exitting_text
    → let me = pcb_of k self in
      (k' : Kernel) × (resume_parent f k self
        ≡ some (k', resumed me.status me.parent_esp me.parent_ebp))
      × (k'.processes ≡ record k.processes {
        per_terminal =
            update k.processes.per_terminal me.terminal
              (minus (k.processes.per_terminal me.terminal) 1);
      })
      × (k'.paging ≡ k.paging)
      × (k'.tss_esp0 ≡ me.parent_esp)
unfolding resume_parent
resume_parent_total f k self ready held =
    let me = pcb_of k self in
    let count = k.processes.per_terminal me.terminal in
    let (spoken, done, s) =
      say-Spoken f exitting count (record k { tss_esp0 = me.parent_esp }) exitting_text ready
        exitting-IsWords held.is held.out (omega (arith, length-exitting_text)) in
    let same = s.state in
    (
      record spoken {
        processes = record spoken.processes {
          per_terminal =
              update spoken.processes.per_terminal me.terminal
                (minus (spoken.processes.per_terminal me.terminal) 1);
        };
      },
      rw done (
          ap
            (λ (p : Processes). some (
              record spoken {
                processes = record spoken.processes {
                  per_terminal =
                      update spoken.processes.per_terminal me.terminal
                        (minus (spoken.processes.per_terminal me.terminal) 1);
                };
              },
              resumed (p.pcbs self).status me.parent_esp me.parent_ebp,
            ))
            (ap (λ (x : Kernel). x.processes) same)),
      ap
          (λ (x : Kernel).
            let ps = x.processes in
            let v = minus (ps.per_terminal me.terminal) 1 in
            record ps { per_terminal = update ps.per_terminal me.terminal v })
          same,
      ap (λ (x : Kernel). x.paging) same,
      ap (λ (x : Kernel). x.tss_esp0) same,
    )

-- The page tables that the parent finds: its own page is mapped, and the video page is given back if
-- the process had it.
abbrev pub parent_paging : Paging → Pcb → Paging
parent_paging paging me =
    let mapped = create_page_dir_entry paging (page_of_process me.parent_id) in
    if me.vidmap_flag then reclaim_video_memory mapped else mapped

to_parent-IsAssigned :
    (f : Frame) (k marked : Kernel) (self status : ℕ)
    → Marked f k self status marked
    → AllAssigned k
    → IsAssigned (to_parent marked self) (current_pid (to_parent marked self))
unfolding to_parent
to_parent-IsAssigned f k marked self status mk safe j busy =
    let q = (pcb_of marked self).parent_id in
    let same : fd_of marked q j ≡ fd_of k q j = ground (arith, mk.same_block q) in
    let (o, e) = safe q j (ap (λ (d : FileDesc). d.in_use) (sym same) ∙ busy) in
    (o, ap (λ (d : FileDesc). d.operations) same ∙ e)

-- What `halt` leaves for the parent of the process `self`.
pub record Restored (k : Kernel) (self : ℕ) (k' : Kernel) : Type 0 where
  pub inactive : k'.processes.active ≡ update k.processes.active k.processes.current false
  pub at_parent : k'.processes.current ≡ (pcb_of k self).parent_id
  pub top :
      k'.processes.pid_in_terminal
      ≡ update k.processes.pid_in_terminal (pcb_of k self).terminal (pos (pcb_of k self).parent_id)
  pub count :
      k'.processes.per_terminal
      ≡ update k.processes.per_terminal
          (pcb_of k self).terminal
          (minus (k.processes.per_terminal (pcb_of k self).terminal) 1)
  pub stack : k'.tss_esp0 ≡ (pcb_of k self).parent_esp
  pub pages : k'.paging ≡ parent_paging k.paging (pcb_of k self)
  pub freed : (j : ℕ) → j < max_fd → (fd_of k' self j).in_use ≡ false

same_devices-IsHeld :
    (f : Frame) (k k' : Kernel) (message : Message) (bs : List ℕ)
    → k'.devices ≡ k.devices
    → IsHeld f k message bs
    → IsHeld f k' message bs
same_devices-IsHeld f k k' message bs e h = record {
  is = subst (λ (d : Devices). IsString d.memory (f.messages message) bs) (sym e) h.is;
  out =
      subst
        (λ (d : Devices). Outside d.console.video_mem f.conv (f.messages message) (length bs + 1))
        (sym e) h.out;
}

module _ (f : Frame) (k marked closed k' : Kernel) (self status : ℕ)
    (mk : Marked f k self status marked) (rest : SameRest (to_parent marked self) closed) where
  same_scalars :
      let me = pcb_of closed self in
      (me.parent_esp ≡ (pcb_of k self).parent_esp)
      × (me.parent_ebp ≡ (pcb_of k self).parent_ebp)
      × (me.terminal ≡ (pcb_of k self).terminal)
      × (me.status ≡ final_status status)
  unfolding to_parent
  same_scalars =
      let same = rest.0 self (fd_of k self 0) in
      let block = mk.same_block self in
      let esp = ap (λ (b : Pcb). b.parent_esp) same in
      let ebp = ap (λ (b : Pcb). b.parent_ebp) same in
      let code = ap (λ (b : Pcb). b.status) same in
      let place = ap (λ (b : Pcb). b.terminal) same in
      (
        ground (arith, esp, block),
        ground (arith, ebp, block),
        ground (arith, place, block),
        ground (arith, code, block),
      )

  module _ (tables : SameTables (to_parent marked self).processes closed.processes)
      (free : (j : ℕ) → j < max_fd → (fd_of closed self j).in_use ≡ false)
      (processes : k'.processes ≡ record closed.processes {
        per_terminal =
            update closed.processes.per_terminal
              (pcb_of closed self).terminal
              (minus (closed.processes.per_terminal (pcb_of closed self).terminal) 1);
      })
      (paging : k'.paging ≡ closed.paging)
      (tss : k'.tss_esp0 ≡ (pcb_of closed self).parent_esp) where
    assembled : Restored k self k'
    unfolding to_parent
    assembled =
        let block = mk.same_block self in
        let here : pcb_of marked self ≡ record (pcb_of k self) { status = final_status status } =
          ground (arith, block) in
        record {
          inactive = ground (arith, processes, tables, mk.same_tables, same_scalars);
          at_parent = ground (arith, processes, tables, mk.same_tables, block);
          top = ground (arith, processes, tables, mk.same_tables, block);
          count = ground (arith, processes, tables, mk.same_tables, same_scalars);
          stack = tss ∙ same_scalars.0;
          pages = paging ∙ rest.1 ∙ (λ i. parent_paging (mk.same_paging i) (here i));
          freed = λ j h. ap (λ (x : Processes). ((x.pcbs self).fds j).in_use) processes ∙ free j h;
        }

-- Where the messages can be printed, and each descriptor that is in use has its operations: `halt` of
-- a process, which is not the base shell, comes to its end, and the `execute` that started the process
-- goes on with its stack and base pointers and the status, 256 for that of an exception. The process
-- that was the current one is no longer active and the descriptors of the one that ends are free, its
-- parent is the current one and the top of the terminal, whose count goes down by one, and the page
-- tables and the TSS are those of the parent.
pub leave_process-Restored :
    (f : Frame) (k : Kernel) (self status : ℕ)
    → CanLeave f k
    → AllAssigned k
    → let me = pcb_of k self in
      (k' : Kernel) × (leave_process f k self status
        ≡ some (k', resumed (final_status status) me.parent_esp me.parent_ebp))
      × Restored k self k'
unfolding leave_process to_parent
leave_process-Restored f k self status can safe =
    let (marked, first, mk) = mark_status-Marked f k self status can in
    let p = to_parent marked self in
    let (closed, loop, freed, kept) =
      close_loop_total 8 p self 0 (to_parent-IsAssigned f k marked self status mk safe)
        (omega arith) in
    let rest : SameRest p closed =
      subst (Ends (SameRest p)) loop (close_loop-SameRest 8 p p self 0 (SameRest-refl p)) in
    let (k', last, processes, paging, tss) =
      resume_parent_total f closed self
        (subst (λ (d : Devices). IsReady f d.console) (sym rest.2) mk.ready)
        (same_devices-IsHeld f p closed exitting exitting_text rest.2
          (record { is = mk.on_exit.is; out = mk.on_exit.out })) in
    let scalars = same_scalars f k marked closed k' self status mk rest in
    (
      k',
      rw (first, loop, last) (λ i. some (k', resumed (scalars.3 i) (scalars.0 i) (scalars.1 i))),
      assembled f k marked closed k' self status mk rest kept.1
          (λ j h. freed j (omega arith) (omega arith)) processes paging tss,
    )
