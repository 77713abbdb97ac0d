-- ===== src/Collector/Once/Ends.antt =====
-- A whole session ends.
use vkt7d.Common.{ℕ, ◌<◌, ◌≢◌, List, [], ◌∷◌, Bytes, get_or}
use vkt7d.Errors.{Result, ok, err, M}
use vkt7d.Model.{Element}
use vkt7d.Config.{Config}
use vkt7d.Protocol.Transaction.{SerialPort}
use vkt7d.Protocol.Reply.{ServiceInfo}
use vkt7d.Protocol.Client.{begin, read_data}
use vkt7d.Storage.{Database, device}
use vkt7d.Collector.World.{Host, on_port, on_db}
use vkt7d.Collector.Session.{End, ran_out, Job, collect_archive}
use vkt7d.Collector.Session.Start.{Stores}
use vkt7d.Collector.Session.Ends.{Bounded, collect_archive-ends}
use vkt7d.Collector.Once.{
  W, ArchiveJob, client, job, positive_part, archive_jobs, archives, collected, listed,
  read_service_info, served, greeted, begun, opened, with_device, pinged, once,
}

abbrev pub AllEnded : List End → Type 0
AllEnded [] = Unit
AllEnded (e ∷ ends) = (e ≢ ran_out) × AllEnded ends

module _ (p : SerialPort) (d : Database) (h : Host) (decode : Bytes → Result Bytes)
    (open_port : M p.State (Unit {0})) (close_port : p.State → p.State) (cfg : Config)
    (timeout turns bound : ℕ) (b : Bounded h bound)
    (stores : (j : Job)
      → Stores p d h (client p d h decode open_port close_port cfg timeout turns) j)
    (far : bound < turns) where
  abbrev Ws : Type 0
  Ws = W p d h decode open_port close_port cfg timeout turns

  archives-AllEnded :
      (id day : ℕ) (jobs : List ArchiveJob) (w : Ws)
      → AllEnded (archives p d h decode open_port close_port cfg timeout turns id day jobs w).0
  unfolding archives
  archives-AllEnded id day [] w = tt
  archives-AllEnded id day (a ∷ rest) w =
      let c = client p d h decode open_port close_port cfg timeout turns in
      let j = job p d h decode open_port close_port cfg timeout turns id day a in
      let w1 = (collect_archive p d h c j turns (positive_part a.batch) w).1 in
      (
        collect_archive-ends p d h c j bound b (stores j) turns (positive_part a.batch) w far,
        archives-AllEnded id day rest w1,
      )

  listed-AllEnded :
      (id server : ℕ) (service : Result ServiceInfo) (r : Result (List Element) × Ws)
      → AllEnded (listed p d h decode open_port close_port cfg timeout turns id server service r).0
  listed-AllEnded id server service (err e, w) = tt
  listed-AllEnded id server service (ok [], w) = tt
  listed-AllEnded id server service (ok (e ∷ es), w) =
      unfold collected in archives-AllEnded id _ (archive_jobs cfg) _

  served-AllEnded :
      (id server : ℕ) (r : Result ServiceInfo × Ws)
      → AllEnded (served p d h decode open_port close_port cfg timeout turns id server r).0
  served-AllEnded id server (service, w) = listed-AllEnded id server service _

  greeted-AllEnded :
      (id : ℕ) (r : Result Bytes × Ws)
      → AllEnded (greeted p d h decode open_port close_port cfg timeout turns id r).0
  greeted-AllEnded id (err e, w) = tt
  greeted-AllEnded id (ok first, w) =
      served-AllEnded id (get_or first 0 0)
        (read_service_info p d h decode open_port close_port cfg timeout turns w)

  begun-AllEnded :
      (id : ℕ) (r : Result (Unit {0}) × Ws)
      → AllEnded (begun p d h decode open_port close_port cfg timeout turns id r).0
  begun-AllEnded id (err e, w) = tt
  begun-AllEnded id (ok u, w) =
      greeted-AllEnded id
        (on_port (read_data p (client p d h decode open_port close_port cfg timeout turns)) w)

  opened-AllEnded :
      (id : ℕ) (r : Result (Unit {0}) × Ws)
      → AllEnded (opened p d h decode open_port close_port cfg timeout turns id r).0
  opened-AllEnded id (err e, w) = tt
  opened-AllEnded id (ok u, w) =
      begun-AllEnded id
        (on_port (begin p (client p d h decode open_port close_port cfg timeout turns)) w)

  with_device-AllEnded :
      (r : Result ℕ × Ws)
      → AllEnded (with_device p d h decode open_port close_port cfg timeout turns r).0
  with_device-AllEnded (err e, w) = tt
  with_device-AllEnded (ok id, w) = opened-AllEnded id (on_port open_port w)

  pinged-AllEnded :
      (r : Result (Unit {0}) × Ws)
      → AllEnded (pinged p d h decode open_port close_port cfg timeout turns r).0
  pinged-AllEnded (err e, w) = tt
  pinged-AllEnded (ok u, w) =
      with_device-AllEnded (on_db (device d cfg.device_name cfg.address cfg.port cfg.baud) w)

  -- A whole session ends: if the clock shows times that exist and stays before a bound, and the times
  -- in the store exist, then with more turns than the bound no archive's loop uses up its turns.
  pub once-AllEnded :
      (w : Ws) → AllEnded (once p d h decode open_port close_port cfg timeout turns w).0
  unfolding once
  once-AllEnded w = pinged-AllEnded (on_db d.ping w)
