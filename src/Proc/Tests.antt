-- ===== src/Proc/Tests.antt =====
-- Witnesses for the theorems on Lab3's kernel modules.
use fall_oslab.Base.{
  ℕ, ◌≡◌, ◌≤◌, refl, List, [], ◌∷◌, ◌++◌, arith, length, take, load_bytes, store_bytes, ◌+◌, ◌-◌,
  ◌<◌, ◌⊎◌, leb, if◌then◌else◌,
}
use fall_oslab.Kernel.{ok}
use fall_oslab.Fixture.{copy_all, copy_all-IsCopy}
use fall_oslab.Proc.Tasks
use fall_oslab.Proc.Tasks.{Task, info_line, thread_loop}
use fall_oslab.Proc.Tasks.Listing.{listing}
use fall_oslab.Proc.Tasks.Read.{IsChecked, refused, reads, myread_lem}
use fall_oslab.Proc.Hello.{mywrite, myread, myread-mywrite}

abbrev hello : List ℕ
hello = b'h' ∷ b'i' ∷ b'\n' ∷ []

abbrev info : List ℕ
info = b'P' ∷ b'I' ∷ b'D' ∷ b'\n' ∷ []

myread-mywrite_example :
    let (written, buf) = mywrite copy_all (λ i. 0) hello 3 in
    (written ≡ ok 3)
    × (myread (λ n. 0) buf (λ i. 7) info 0
        ≡ record { result = ok 7; offset = 7; ubuf = hello ++ info })
    × (myread (λ n. 0) buf (λ i. 7) info 7 ≡ record { result = ok 0; offset = 7; ubuf = [] })
unfolding copy_all
myread-mywrite_example =
    myread-mywrite copy_all copy_all-IsCopy (λ i. 0) hello (λ n. 0) (λ i. 7) info
      (refl, (refl, (refl, tt))) refl (λ n h. refl) (omega arith) (omega arith)

-- copy_to_user from an array of 1024 bytes
abbrev checked : ℕ → ℕ
checked n = if leb n 1024 then 0 else n

checked-IsChecked : IsChecked Tasks.bufsize checked
checked-IsChecked = record { copies = λ n h. ground arith; refuses = λ n h. ground arith }

-- %d of a number below 10
abbrev digit : ℕ → List ℕ
digit n = (b'0' + n) ∷ []

abbrev leader : Task
leader = record { pid = 5; prio = 1; state = 0 }

abbrev worker : Task
worker = record { pid = 6; prio = 2; state = 1 }

abbrev tasks : List Task
tasks = leader ∷ worker ∷ []

myread_lem_example :
    let out = (Tasks.myread digit 5 checked tasks (λ i. 9) 0).0 in
    let lines = listing digit 5 in
    ((((length (lines tasks) < Tasks.bufsize) × (out ≡ reads digit 5 (lines tasks)))
        ⊎ ((before : List Task) × (last : Task) × (behind : List Task) × (n : ℕ) × (tasks
              ≡ before ++ (last ∷ behind))
            × (length (lines before) < Tasks.bufsize)
            × (length (lines (before ++ (last ∷ []))) ≡ Tasks.bufsize + n)
            × (((n ≡ 0)
                  × (out
                      ≡ reads digit 5
                          (take (Tasks.bufsize - 1) (lines (before ++ (last ∷ []))) ++ (0 ∷ []))))
                ⊎ ((1 ≤ n) × (out ≡ refused)))))
      × ((offset : ℕ)
          → 0 < offset
          → Tasks.myread digit 5 checked tasks (λ i. 9) offset
            ≡ (record { result = ok 0; offset = offset; ubuf = [] }, λ i. 9)))
myread_lem_example = myread_lem digit 5 checked tasks (λ i. 9) checked-IsChecked

-- The first thread is left out.
worker_listed :
    (Tasks.myread digit 5 checked tasks (λ i. 9) 0).0 ≡ reads digit 5 (info_line digit 5 worker)
unfolding Tasks.myread thread_loop info_line load_bytes store_bytes
worker_listed = refl
