-- ===== src/Scheduler/Tests.antt =====
-- A scheduler for an object of 4 MiB on the cache file of Cache/Write.antt, and what it does.
use varc.Base.{
  ◌<◌, ◌≡◌, refl, inl, arith, true, false, none, some, List, [], ◌∷◌, if◌then◌else◌, lt64, add64,
}
use varc.Ranges.{Range, is_empty}
use varc.Scheduler.{
  Env, failed, Downloaders, ensure_downloader, fresh_downloader, window_of, with_read_ahead,
  download, ensure_wanted, reuse, remove_closed, wanted, start_downloader, open_error, count_errors,
  is_no_space, serves, set_range,
}
use varc.Scheduler.Item.{ItemView}
use varc.Scheduler.Waiters.{
  close, is_served, kick_waiters, dispatch_waiters, answer_all, still_waiting, now_served,
  ensure_all, give_up,
}
use varc.Scheduler.Fetch.{quit, after_write, close_fetch}
use varc.Scheduler.Run.{Call, downloads, kicks, writes, ends, run, new_downloaders, step, update_at}
use varc.Scheduler.Serving.{Any, Serves, ensure_downloader-Serves}
use varc.Scheduler.Answers.{IsNumbered, answered, run_numbers, close_answers_each}
use varc.Scheduler.Stopping.{QuitsOnce, waits, stops, fetch_run, fetch_run-fresh}
use varc.Scheduler.Closing.{close-told}

abbrev env : Env
env = record { src_size = 4194304; read_ahead = 0; buffer_size = 16777216 }

-- Nothing is cached.
abbrev empty_item : ItemView
empty_item = record { find_missing = λ r. r; has_range = λ _. false }

abbrev first_kib : Range
first_kib = record { pos = 0; size = 1024 }

abbrev calls : List Call
calls =
    downloads empty_item first_kib
    ∷ writes 0 512 0 none
    ∷ kicks empty_item
    ∷ ends empty_item 0 512 (some (failed 7))
    ∷ []

abbrev full_item : ItemView
full_item = record { find_missing = λ r. record { pos = 0; size = 0 }; has_range = λ _. true }

ensure_downloader-Serves_example :
    Any
      (Serves (window_of env) (empty_item.find_missing (with_read_ahead env first_kib)))
      (ensure_downloader env empty_item new_downloaders first_kib).0.dls
unfolding with_read_ahead lt64 is_empty ensure_downloader ensure_wanted reuse remove_closed
    new_downloaders wanted start_downloader open_error
ensure_downloader-Serves_example =
    ensure_downloader-Serves env empty_item new_downloaders first_kib (omega arith) refl refl

run_numbers_example : IsNumbered (run env new_downloaders calls)
run_numbers_example = run_numbers env calls

next_id_test : (run env new_downloaders calls).next_id ≡ 1
unfolding run new_downloaders step kick_waiters dispatch_waiters download ensure_downloader
    with_read_ahead lt64 is_empty ensure_wanted reuse remove_closed wanted start_downloader
    open_error count_errors answer_all still_waiting is_served ensure_all give_up is_no_space
    update_at after_write close_fetch fresh_downloader now_served serves set_range add64
next_id_test = refl

given_out : 0 < (run env new_downloaders calls).next_id
given_out = rw next_id_test (omega arith)

close_answers_each_example :
    (answered 0 (close env full_item (run env new_downloaders calls) none).answers ≡ 1)
    × ((close env full_item (run env new_downloaders calls) none).waiters ≡ [])
close_answers_each_example = close_answers_each env calls full_item none 0 given_out

fetch_run-fresh_example :
    QuitsOnce (
      fetch_run (fresh_downloader env first_kib) (stops none ∷ waits (quit ∷ []) ∷ stops none ∷ []))
fetch_run-fresh_example =
    fetch_run-fresh env first_kib (stops none ∷ waits (quit ∷ []) ∷ stops none ∷ [])

abbrev one_waits : Downloaders
one_waits = record {
  dls = [];
  waiters = record { id = 0; r = first_kib } ∷ [];
  error_count = 0;
  last_err = none;
  next_id = 1;
  answers = [];
}

-- The waiter's bytes are not present, and it is told that there was no error.
close-told_example :
    Any
      (λ a.
        a ≡ (0, if is_served env empty_item (record { id = 0; r = first_kib }) then none else none))
      (close env empty_item one_waits none).answers
close-told_example =
    close-told env empty_item one_waits none (record { id = 0; r = first_kib }) (inl refl)
