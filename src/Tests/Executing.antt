-- ===== src/Tests/Executing.antt =====
-- A command that is executed: "hi y", with the executable "hi".
use linux_kernel_os.Prelude.{
  ltb, ◌==◌, if◌then◌else◌, get_or, length, ◌+◌, ℕ, zero, suc, ◌-◌, ◌≤◌, ◌<◌, ◌≡◌, refl, inl, inr,
  some, List, [], ◌∷◌, arith,
}
use linux_kernel_os.Memory.{Memory}
use linux_kernel_os.Strings.{IsString}
use linux_kernel_os.Strings.Compare.{IsBytes}
use linux_kernel_os.Prelude.Int.{fail}
use linux_kernel_os.Fs.{dentry_max, dentry_at}
use linux_kernel_os.Fs.Lookup.{SameName, IsDirectory}
use linux_kernel_os.Fs.Image.{IsFile}
use linux_kernel_os.Process.{get_pcb_by_id}
use linux_kernel_os.Kernel.{Kernel, Frame, running, with_memory}
use linux_kernel_os.Tests.Images.{disk, image, names}
use linux_kernel_os.Tests.Devices.{console-OnScreen}
use linux_kernel_os.Tests.Processes.{kernel, frame}
use linux_kernel_os.Run.{
  entered, user_cs, user_ds, page_bottom, execute, returned, argument_index, name_index,
  write_magic, skip_spaces, skip_word,
}
use linux_kernel_os.Run.Command.{IsCommand, asked, execute_missing}
use linux_kernel_os.Run.Refusal.{Refuses, execute-Refuses}
use linux_kernel_os.Memory.Write.{Apart}
use linux_kernel_os.Run.Buffer.{IsBuffer}
use linux_kernel_os.Run.Create.{Started}
use linux_kernel_os.Run.Lookup.{IsSeparate, CanExecute}
use linux_kernel_os.Run.Execute.{execute-Started}
use linux_kernel_os.Run.Speak.{running_text}
use linux_kernel_os.Run.Start.{CanStart}

abbrev hi_y : List ℕ
hi_y = b'h' ∷ b'i' ∷ b' ' ∷ b'y' ∷ []

-- The image with an executable of 30 bytes, the message at 2 MB, and the command.
abbrev disk_bytes : Memory
disk_bytes a =
    if a == 73728
    then 30
    else if a == 77824
    then 0x7f
    else if a == 77825
    then 0x45
    else if a == 77826
    then 0x4c
    else if a == 77827
    then 0x46
    else if a == 77848
    then 0x18
    else if a == 77849
    then 0x80
    else if a == 77850
    then 4
    else if a == 77851
    then 8
    else image a

abbrev low_memory : Memory
low_memory a =
    if ltb a 0x200000
    then disk_bytes a
    else if ltb a 0x200100
    then get_or running_text (a - 0x200000) 0
    else if ltb a 0x200300
    then 0
    else get_or hi_y (a - 0x200300) 0

abbrev asking : Kernel
asking = with_memory kernel low_memory

abbrev loader : Frame
loader = record frame {
  magic = 0x200500;
  filename = 0x200600;
  dentry = 0x200700;
  elf_buffer = 0x200800;
  entry_buffer = 0x200900;
  messages = λ s. elim s [ running ↦ 0x200000 | _ ↦ 0x200a00 ];
}

AllBytes : List ℕ → Type 0
AllBytes [] = Unit
AllBytes (b ∷ bs) = (b < 256) × AllBytes bs

get_or-AllBytes : (bs : List ℕ) (i : ℕ) → AllBytes bs → get_or bs i 0 < 256
unfolding AllBytes
get_or-AllBytes [] i all = ground arith
get_or-AllBytes (b ∷ bs) zero all = all.0
get_or-AllBytes (b ∷ bs) (suc i) all = get_or-AllBytes bs i all.1

low_memory-IsBytes : IsBytes low_memory
unfolding AllBytes running_text
low_memory-IsBytes a =
    let message : AllBytes running_text = ground arith in
    let command : AllBytes hi_y = ground arith in
    let first = get_or-AllBytes running_text (a - 0x200000) message in
    let second = get_or-AllBytes hi_y (a - 0x200300) command in ground (arith, first, second)

low_memory-IsDirectory : IsDirectory disk low_memory names
low_memory-IsDirectory zero h = (ground arith, omega arith)
low_memory-IsDirectory (suc i) h = (ground arith, omega arith)

directory-Apart :
    (i : ℕ)
    → i < dentry_max
    → Apart 0x200500 4 (dentry_at disk i) (length (names i) + 1)
      × Apart 0x200600 128 (dentry_at disk i) (length (names i) + 1)
directory-Apart zero h = (inr (omega arith), inr (omega arith))
directory-Apart (suc i) h = (inr (omega arith), inr (omega arith))

hi_y-IsCommand : IsCommand loader asking 0x200300 hi_y names
hi_y-IsCommand = record {
  given = λ e. absurd (omega arith);
  is_command = ground arith;
  short = omega arith;
  bytes = low_memory-IsBytes;
  directory = low_memory-IsDirectory;
  filename_given = λ e. absurd (omega arith);
  dentry_given = λ e. absurd (omega arith);
  magic_out = inr (omega arith);
  filename_out = inr (omega arith);
  directory_out = directory-Apart;
}

y-IsCommand : IsCommand loader asking 0x200303 (b'y' ∷ []) names
y-IsCommand = record {
  given = λ e. absurd (omega arith);
  is_command = ground arith;
  short = omega arith;
  bytes = low_memory-IsBytes;
  directory = low_memory-IsDirectory;
  filename_given = λ e. absurd (omega arith);
  dentry_given = λ e. absurd (omega arith);
  magic_out = inr (omega arith);
  filename_out = inr (omega arith);
  directory_out = directory-Apart;
}

low_memory-IsFile : IsFile disk low_memory 1
low_memory-IsFile = record {
  inode_in = omega arith;
  size = omega arith;
  blocks_in = λ k h. let first : k ≡ 0 = omega arith in rw first (omega arith);
}

message-IsString : IsString low_memory 0x200000 running_text
unfolding running_text
message-IsString = ground arith

hi_y-CanStart : CanStart loader asking 1 1 0x200303 (b'y' ∷ [])
unfolding get_pcb_by_id running_text
hi_y-CanStart = record {
  pid_in = omega arith;
  file = low_memory-IsFile;
  full = omega arith;
  fits = omega arith;
  image_low = omega arith;
  is_arguments = ground arith;
  short = omega arith;
  arguments_out = inr (omega arith);
  ready = record { on = console-OnScreen; apart = inl (omega arith) };
  screen_low = omega arith;
  buffer_low = omega arith;
  on_start = record { is = message-IsString; out = (inl (omega arith), inr (omega arith)) };
  message_low = omega arith;
  message_out = inr (omega arith);
}

four-IsBuffer : (b : ℕ) → 0x200500 ≤ b → IsBuffer loader asking 0x200303 (b'y' ∷ []) b
unfolding running_text
four-IsBuffer b from = record {
  given = λ e. absurd (omega arith);
  image_out = inr (omega arith);
  arguments_out = inr (omega arith);
  message_out = inr (omega arith);
}

array-IsSeparate : (b n : ℕ) → 0x200500 ≤ b → IsSeparate loader asking 0x200303 (b'y' ∷ []) b n
unfolding running_text
array-IsSeparate b n from = record {
  image_out = inr (omega arith);
  arguments_out = inr (omega arith);
  message_out = inr (omega arith);
}

hi_y-CanExecute : CanExecute loader asking 0x200300 hi_y names 1 1 0x200303 (b'y' ∷ [])
hi_y-CanExecute = record {
  is_command = hi_y-IsCommand;
  can_start = hi_y-CanStart;
  is_program = record {
    long = omega arith;
    starts = ground arith;
    elf = four-IsBuffer 0x200800 (omega arith);
    entry = four-IsBuffer 0x200900 (omega arith);
    magic_out = inr (omega arith);
  };
  magic_apart = array-IsSeparate 0x200500 4 (omega arith);
  filename_apart = array-IsSeparate 0x200600 128 (omega arith);
  dentry_apart = array-IsSeparate 0x200700 64 (omega arith);
  filename_magic = inr (omega arith);
  dentry_magic = inr (omega arith);
}

execute-Started_example :
    (m : Memory) × ((a : ℕ)
      → Apart 0x200500 4 a 1
      → Apart 0x200600 128 a 1
      → Apart 0x200700 64 a 1
      → Apart 0x200800 4 a 1
      → Apart 0x200900 4 a 1
      → m a ≡ low_memory a)
    × (k' : Kernel) × (execute loader asking 0x200300
        ≡ some (k', entered 0x8048018 page_bottom user_cs user_ds))
    × Started loader (record (with_memory asking m) { entry_pt = 0x8048018 }) 1 1 1 k'
unfolding argument_index name_index write_magic skip_spaces skip_word
execute-Started_example =
    execute-Started loader asking 0x200300 hi_y names 1 0x200303 0 (b'y' ∷ []) (omega arith)
      hi_y-CanExecute 2 refl (omega arith) (omega arith) (refl, refl) (λ l h. absurd (omega arith))
      refl (λ p. refl) refl (λ l h. ground arith)

no-y : (l : ℕ) → l < dentry_max → ¬ SameName (names l) (b'y' ∷ []) 1
no-y zero h same = ground (arith, same)
no-y (suc l) h same = ground (arith, same)

execute_missing_example :
    execute loader asking 0x200303
    ≡ some (
      with_memory asking (asked loader asking 0x200303 (b'y' ∷ []) names y-IsCommand),
      returned fail,
    )
execute_missing_example =
    execute_missing loader asking 0x200303 (b'y' ∷ []) names y-IsCommand 1 refl (inr (inr no-y))

execute-Refuses_example : Refuses asking (execute loader asking 0x200303)
execute-Refuses_example = execute-Refuses asking loader 0x200303
