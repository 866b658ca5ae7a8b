-- ===== src/Tests/HttpFetch.antt =====
-- Calls over the connection pool.
use quackapi.Base.{List, ◌+◌, ◌≤◌, true, [], ◌∷◌, count, ◌==◌, ◌≡◌, refl}
use quackapi.Text.{codes, text_eq}
use quackapi.HttpFetch.{
  plain, util, total, erase_oldest, alter, pool_host, total_idle_clients, pop, acquire, release,
  reset_pool, pool_stats,
}
use quackapi.HttpFetch.Hosts.{IsValid}
use quackapi.HttpFetch.Exclusive.{
  Step, start, finish, step, after_steps, after_steps-IsValid, occurs, exclusive,
}

-- Two calls at once to one host; the first ends well, and a third one takes its client.
abbrev three_calls : List Step
three_calls =
    start plain (codes "http://a") 3000
    ∷ finish plain (codes "http://a") 2000 0 true
    ∷ start plain (codes "http://a") 1000
    ∷ start plain (codes "http://a") 0
    ∷ []

reused : (after_steps three_calls).out ≡ 0 ∷ 1 ∷ []
unfolding after_steps step acquire release pool_host alter pop erase_oldest total_idle_clients
    reset_pool text_eq
reused = refl

counted :
    pool_stats (after_steps three_calls).hosts
    ≡ record { host = codes "http://a"; idle = 0; dialed = 2; reused = 1 } ∷ []
unfolding pool_stats after_steps step acquire release pool_host alter pop erase_oldest
    total_idle_clients reset_pool text_eq
counted = refl

-- After five minutes the idle client is gone.
evicted :
    (after_steps (
      start util (codes "b") 400000
      ∷ finish plain (codes "http://a") 2000 0 true
      ∷ start plain (codes "http://a") 1000
      ∷ [])).hosts
    ≡ (
      codes "b",
      record { plain_idle = []; util_idle = []; dialed = 1; reused = 0; last_used = 400000 },
    )
      ∷ []
unfolding after_steps step acquire release pool_host alter pop erase_oldest total_idle_clients
    reset_pool text_eq
evicted = refl

after_steps-IsValid_example : IsValid (after_steps three_calls).hosts
after_steps-IsValid_example = after_steps-IsValid three_calls

exclusive_example :
    total (occurs 0) (after_steps three_calls).hosts
      + count (λ c. c == 0) (after_steps three_calls).out
    ≤ 1
exclusive_example = exclusive three_calls 0
