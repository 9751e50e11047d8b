-- ===== src/Tests/Threads.antt =====
-- Two threads that save the same object at once.
use aws_kms_demo.Base.{ℕ, list_eq, Bytes, txt, ok, some, none, ◌≡◌, refl, [], ◌∷◌}
use aws_kms_demo.S3.{put_service_error, is_body}
use aws_kms_demo.S3.Store.{Contents, update}
use aws_kms_demo.S3.Program.{
  Program, finished, save_program, attempts_program, after_put, load_program, after_get, after_load,
}
use aws_kms_demo.S3.Interleaving.{
  created, refused, present, get_move, put_move, Job, System, start, set, Reach, here, later,
}
use aws_kms_demo.S3.Interleaving.Agreement.{Reach-Holds, Reach-agree}
use aws_kms_demo.Tests.Store.{empty_store}

abbrev manifest_job : Job
manifest_job = record { bucket = txt "b"; key = txt "k"; body = 7 ∷ [] }

abbrev after_first : Contents
after_first = update empty_store (txt "b") (txt "k") (7 ∷ [])

-- The first thread creates the object; the second is refused, reads it back and finds its own body.
abbrev threads : ℕ → Program
threads =
    set
      (set (set (λ _. save_program (txt "b") (txt "k") (7 ∷ [])) 0 (finished (ok tt))) 1
        (load_program (txt "b") (txt "k") 4 1 (after_load (txt "b") (txt "k") (7 ∷ []))))
      1 (finished (ok tt))

abbrev last : System
last = record { store = after_first; thread = threads }

reaches : Reach (start (λ _. manifest_job) empty_store) last
unfolding save_program attempts_program after_put load_program after_get after_load is_body txt
    list_eq
reaches =
    later
      (later (later here 0 (put_move (created refl))) 1
        (put_move (refused {o = put_service_error 412 none none} (λ e. cc))))
      1 (get_move (present refl))

Reach-Holds_example : last.store (txt "b") (txt "k") ≡ some (7 ∷ [])
Reach-Holds_example = Reach-Holds (λ _. manifest_job) empty_store last 1 reaches refl

Reach-agree_example : ◌≡◌ {A = Bytes} (7 ∷ []) (7 ∷ [])
Reach-agree_example =
    Reach-agree (λ _. manifest_job) empty_store last 0 1 reaches refl refl refl refl
