-- ===== src/Infra/IoContextPool.antt =====
-- src/infra/io/IoContextPool.cpp: the contexts are numbered, and those that `stop` was called on are
-- kept in a list of flags.
use hermes_flow_server.Common.{
  ℕ, zero, suc, ◌+◌, ◌%◌, ◌^◌, ◌<◌, ◌≡◌, refl, ap, ◌∙◌, Bool, true, false, List, map, arith, length,
  replicate, length-replicate, if◌then◌else◌, ◌==◌,
}
use hermes_flow_server.Common.Expected.{Expected, value, unexpected}
use hermes_flow_server.Types.{AppError, config_error}

pub record IoContextPool : Type 0 where
  -- whether each context was stopped
  pub io_contexts : List Bool
  pub work_guards : ℕ
  pub threads : ℕ
  pub next_io_context : ℕ

abbrev pub construct : ℕ → IoContextPool
construct pool_size = record {
  io_contexts = replicate pool_size false;
  work_guards = pool_size;
  threads = 0;
  next_io_context = 0;
}

unfoldable pub create : ℕ → Expected AppError IoContextPool
create pool_size = if pool_size == 0 then unexpected config_error else value (construct pool_size)

unfoldable pub run : IoContextPool → IoContextPool
run p = if p.threads == 0 then record p { threads = length p.io_contexts } else p

unfoldable pub stop : IoContextPool → IoContextPool
stop p = record p { work_guards = 0; io_contexts = map (λ s. true) p.io_contexts }

-- The index of the context, and the pool after the call.
unfoldable pub get_io_context : IoContextPool → ℕ × IoContextPool
get_io_context p = (
  p.next_io_context % length p.io_contexts,
  record p { next_io_context = (p.next_io_context + 1) % 2 ^ 64 },
)

-- The pool after a number of calls.
unfoldable pub after_calls : ℕ → IoContextPool → IoContextPool
unfolding get_io_context
after_calls zero p = p
after_calls (suc k) p = after_calls k (get_io_context p).1

calls_counter :
    (k : ℕ) (p : IoContextPool)
    → p.next_io_context + k < 2 ^ 64
    → ((after_calls k p).next_io_context ≡ p.next_io_context + k)
      × ((after_calls k p).io_contexts ≡ p.io_contexts)
unfolding after_calls get_io_context
calls_counter zero p h = (omega arith, refl)
calls_counter (suc k) p h =
    let (same, contexts) = calls_counter k (get_io_context p).1 (omega arith) in
    (omega (arith, same), contexts)

-- In the first 2^64 calls, the contexts of a new pool are taken in turns, from the first on.
pub get_io_context_turns :
    (pool_size k : ℕ)
    → k < 2 ^ 64
    → (get_io_context (after_calls k (construct pool_size))).0 ≡ k % pool_size
unfolding get_io_context
get_io_context_turns pool_size k h =
    let (same, contexts) = calls_counter k (construct pool_size) (omega arith) in
    ap (λ n. n % length (after_calls k (construct pool_size)).io_contexts) (same ∙ zero_add k)
    ∙ ap (λ l. k % length l) contexts
    ∙ ap (λ n. k % n) (length-replicate pool_size false)
  where
    zero_add : (k : ℕ) → 0 + k ≡ k
    zero_add k = omega arith
