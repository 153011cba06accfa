-- ===== src/Tests/Starting.antt =====
-- A program that is started, and ends.
use linux_kernel_os.Prelude.{
  ltb, ◌==◌, if◌then◌else◌, get_or, ◌-◌, ◌≡◌, refl, inl, inr, some, [], ◌∷◌, arith,
}
use linux_kernel_os.Prelude.Int.{negsuc, fail}
use linux_kernel_os.Memory.{Memory}
use linux_kernel_os.Strings.{IsString}
use linux_kernel_os.Fs.Image.{IsFile}
use linux_kernel_os.Process.{get_pcb_by_id}
use linux_kernel_os.Kernel.{
  Kernel, Frame, running, exception, exitting, with_memory, memory_of, pcb_of,
}
use linux_kernel_os.Tests.Images.{disk, image}
use linux_kernel_os.Tests.Devices.{console-OnScreen}
use linux_kernel_os.Tests.Processes.{kernel, frame, kernel-AllAssigned}
use linux_kernel_os.Files.Reachable.{closes, Reachable, here, after}
use linux_kernel_os.Files.{close}
use linux_kernel_os.Print.Shown.{IsString-same}
use linux_kernel_os.Run.{
  entered, resumed, user_cs, user_ds, page_bottom, create_process, halt, leave_process,
}
use linux_kernel_os.Run.Create.{Started, create_process-Started}
use linux_kernel_os.Run.Leave.{CanLeave, Restored, leave_process-Restored}
use linux_kernel_os.Run.Return.{Back, halt-Back}
use linux_kernel_os.Run.Speak.{running_text, exception_text, exitting_text}
use linux_kernel_os.Run.Start.{CanStart}

-- The image, the messages from 2 MB on, and the arguments "y".
abbrev texts : Memory
texts a =
    if ltb a 0x200000
    then image a
    else if ltb a 0x200100
    then get_or running_text (a - 0x200000) 0
    else if ltb a 0x200200
    then get_or exception_text (a - 0x200100) 0
    else if ltb a 0x200300
    then get_or exitting_text (a - 0x200200) 0
    else if a == 0x200300
    then b'y'
    else 0

abbrev speaking : Kernel
speaking = with_memory kernel texts

abbrev caller : Frame
caller = record frame {
  messages = λ s. elim s [
    | running ↦ 0x200000
    | exception ↦ 0x200100
    | exitting ↦ 0x200200
    | _ ↦ 0x200400
  ];
}

texts-IsFile : IsFile disk texts 1
texts-IsFile = record {
  inode_in = omega arith;
  size = omega arith;
  blocks_in = λ k h. let first : k ≡ 0 = omega arith in rw first (omega arith);
}

running-IsString : IsString texts 0x200000 running_text
unfolding running_text
running-IsString = ground arith

exception-IsString : IsString texts 0x200100 exception_text
unfolding exception_text
exception-IsString = ground arith

exitting-IsString : IsString texts 0x200200 exitting_text
unfolding exitting_text
exitting-IsString = ground arith

y-CanStart : CanStart caller speaking 1 1 0x200300 (b'y' ∷ [])
unfolding get_pcb_by_id running_text
y-CanStart = record {
  pid_in = omega arith;
  file = texts-IsFile;
  full = omega arith;
  fits = omega arith;
  image_low = omega arith;
  is_arguments = ground arith;
  short = omega arith;
  arguments_out = inr (omega arith);
  ready = record { on = console-OnScreen; apart = inl (omega arith) };
  screen_low = omega arith;
  buffer_low = omega arith;
  on_start = record { is = running-IsString; out = (inl (omega arith), inr (omega arith)) };
  message_low = omega arith;
  message_out = inr (omega arith);
}

create_process-Started_example :
    (k' : Kernel) × (create_process caller speaking 1 0x200300
      ≡ some (k', entered 0 page_bottom user_cs user_ds))
    × Started caller speaking 1 1 1 k'
create_process-Started_example =
    create_process-Started caller speaking 1 1 0x200300 (b'y' ∷ []) y-CanStart (λ p. refl) refl
      (λ l h. ground arith)

-- The program when it has started.
begun :
    (k' : Kernel) × (create_process caller speaking 1 0x200300
      ≡ some (k', entered 0 page_bottom user_cs user_ds))
    × Started caller speaking 1 1 1 k'
begun =
    create_process-Started caller speaking 1 1 0x200300 (b'y' ∷ []) y-CanStart (λ p. refl) refl
      (λ l h. ground arith)

running_y : Kernel
unfolding begun
running_y = begun.0

running_y-Started : Started caller speaking 1 1 1 running_y
unfolding running_y
running_y-Started = begun.2

running_y-CanLeave : CanLeave caller running_y
unfolding get_pcb_by_id exception_text exitting_text
running_y-CanLeave =
    let s = running_y-Started in
    record {
      ready = s.ready;
      on_exception = record {
        is =
            IsString-same texts (memory_of running_y) 0x200100 exception_text
              (λ a lo hi.
                s.kept a (omega arith) (inr (omega arith)) (inl (omega arith), inr (omega arith)))
              exception-IsString;
        out = rw s.same_screen (inl (omega arith), inr (omega arith));
      };
      on_exit = record {
        is =
            IsString-same texts (memory_of running_y) 0x200200 exitting_text
              (λ a lo hi.
                s.kept a (omega arith) (inr (omega arith)) (inl (omega arith), inr (omega arith)))
              exitting-IsString;
        out = rw s.same_screen (inl (omega arith), inr (omega arith));
      };
    }

-- A call on a descriptor that is none.
one_call : Reachable running_y running_y
unfolding close
one_call = after here (closes (negsuc 0) fail refl)

halt-Back_example :
    (k' : Kernel) × (halt caller caller running_y 255 ≡ some (k', resumed 256 0x7fff00 0x7fff10))
    × Back speaking 0 caller k'
halt-Back_example =
    halt-Back caller caller speaking running_y running_y 1 1 1 0 255 running_y-Started refl
      (omega arith) refl one_call caller refl (running_y-Started.safe kernel-AllAssigned)
      running_y-CanLeave

leave_process-Restored_example :
    (k' : Kernel) × (leave_process caller running_y 1 0
      ≡ some (k', resumed 0 (pcb_of running_y 1).parent_esp (pcb_of running_y 1).parent_ebp))
    × Restored running_y 1 k'
leave_process-Restored_example =
    leave_process-Restored caller running_y 1 0 running_y-CanLeave
      (running_y-Started.safe kernel-AllAssigned)
