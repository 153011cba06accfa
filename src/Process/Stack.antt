-- ===== src/Process/Stack.antt =====
-- Where the kernel stacks stand, and whose block the stack pointer leads to.
use linux_kernel_os.Memory.{null}
use linux_kernel_os.Prelude.{ℕ, ◌+◌, ◌-◌, ◌*◌, ◌^◌, ◌≤◌, ◌<◌, ◌≡◌, ◌∙◌, ◌≢◌, arith}
use linux_kernel_os.Prelude.Bits.{bit_and-mask}
use linux_kernel_os.Process.{max_pcb, pcb_addr, pcb_8kb, get_pcb_by_id, get_current_pcb, pid_of_pcb}

-- With the stack pointer anywhere in the 8 KB kernel stack of `pid`, of six processes, the masked
-- pointer is the block of `pid`.
pub get_current_pcb_lem :
    (pid esp : ℕ)
    → pid < max_pcb
    → get_pcb_by_id pid ≤ esp
    → esp < get_pcb_by_id pid + pcb_8kb
    → get_current_pcb esp ≡ get_pcb_by_id pid
unfolding get_pcb_by_id get_current_pcb
get_current_pcb_lem pid esp h lo hi =
    let q : ℕ = 1024 - (pid + 1) in
    let split : esp ≡ q * 2 ^ 13 + (esp - q * 2 ^ 13) = omega arith in
    let base : q * 2 ^ 13 ≡ pcb_addr - pcb_8kb * (pid + 1) = omega arith in
    rw split (bit_and-mask 19 13 q (esp - q * 2 ^ 13) (omega arith) (omega arith) ∙ base)

pub get_pcb_by_id_real : (pid : ℕ) → pid < max_pcb → get_pcb_by_id pid ≢ null
unfolding get_pcb_by_id
get_pcb_by_id_real pid h e = omega arith

pub pid_of_pcb_back : (pid : ℕ) → pid < max_pcb → pid_of_pcb (get_pcb_by_id pid) ≡ pid
unfolding get_pcb_by_id
pid_of_pcb_back pid h =
    let down : pcb_addr - (pcb_addr - pcb_8kb * (pid + 1)) ≡ pcb_8kb * (pid + 1) = omega arith in
    rw down (omega arith)
