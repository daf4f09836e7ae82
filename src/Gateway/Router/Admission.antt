-- ===== src/Gateway/Router/Admission.antt =====
-- What a message that the guard does not let in changes.
use open_nipper.Prelude.{ℕ, Bool}
use open_nipper.Models.Message.{NipperMessage}
use open_nipper.Gateway.Collect.{Router, RouterEnv}
use open_nipper.Gateway.Router.{handle_normalized_message}
use open_nipper.Gateway.Router.Frame.{SameCore, Passes, handle_stops, IsQuiet}

-- A message that is not of the cron channel and whose user, once identified, is not permitted on
-- its channel leaves the registry, the deduplicator, the collect buffers and the pending flushes as
-- they were, nothing is handed to the publisher, and no error is returned but that of a datastore
-- that failed.
pub unpermitted_stops :
    (env : RouterEnv) (now later : ℕ) (notify : Bool) (msg : NipperMessage) (r : Router)
    → ¬ Passes env now msg r
    → SameCore r (handle_normalized_message env now later notify msg r).0
      × IsQuiet (handle_normalized_message env now later notify msg r).1
unpermitted_stops = handle_stops
