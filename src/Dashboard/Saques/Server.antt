-- ===== src/Dashboard/Saques/Server.antt =====
-- The transitions of `Confirm`, `Paid` and `Cancel` in internal/api/handlers/payouts/handler.go, for a
-- payout that exists: the status afterwards, and whether the answer is 200. Database errors and the
-- replay of an answer by its idempotency key are left out.
use indica_ai.Prelude.{Bool, true, false}
use indica_ai.Dashboard.Api.Types.{PayoutStatus}

-- `WHERE status = 'pending'`; a payout that is confirmed or paid is answered 200 as it is.
unfoldable pub server_confirm : PayoutStatus → PayoutStatus × Bool
server_confirm PayoutStatus.pending = (PayoutStatus.processing, true)
server_confirm PayoutStatus.processing = (PayoutStatus.processing, true)
server_confirm PayoutStatus.paid = (PayoutStatus.paid, true)
server_confirm s = (s, false)

-- `WHERE status = 'processing'`; a payout that is paid is answered 200 as it is.
unfoldable pub server_paid : PayoutStatus → PayoutStatus × Bool
server_paid PayoutStatus.processing = (PayoutStatus.paid, true)
server_paid PayoutStatus.paid = (PayoutStatus.paid, true)
server_paid s = (s, false)

-- `WHERE status IN ('pending', 'processing')`.
unfoldable pub server_cancel : PayoutStatus → PayoutStatus × Bool
server_cancel PayoutStatus.pending = (PayoutStatus.cancelled, true)
server_cancel PayoutStatus.processing = (PayoutStatus.cancelled, true)
server_cancel s = (s, false)
