-- ===== src/Collector/Once/Port.antt =====
-- The serial port of a session.
use vkt7d.Common.{ℕ, ◌≡◌, refl, ap, Bytes}
use vkt7d.Errors.{Error, Result, ok, err, M, ◌>>◌}
use vkt7d.Config.{Config}
use vkt7d.Protocol.Transaction.{SerialPort}
use vkt7d.Protocol.Client.{begin}
use vkt7d.Storage.{Database, device}
use vkt7d.Collector.World.{Host, on_port}
use vkt7d.Collector.Once.{W, client, begun, opened, with_device, pinged, once}

module _ (p : SerialPort) (d : Database) (h : Host) (decode : Bytes → Result Bytes)
    (open_port : M p.State (Unit {0})) (close_port : p.State → p.State) (cfg : Config)
    (timeout turns : ℕ) where
  abbrev Ws : Type 0
  Ws = W p d h decode open_port close_port cfg timeout turns

  abbrev pub device_row : M d.State ℕ
  device_row = d.ping >> device d cfg.device_name cfg.address cfg.port cfg.baud

  -- What has become of the port: with no row for the device it was not touched; else it could not be
  -- opened, or it was opened, and closed in the end.
  pub data Used (w : Ws) : p.State → Type 0 where
    untouched : (e : Error) → (device_row w.db).0 ≡ err e → Used w w.port
    not_opened : (e : Error) (s : p.State) → open_port w.port ≡ (err e, s) → Used w s
    closed_again :
        (id : ℕ) (u : Unit {0}) (s s' : p.State)
        → (device_row w.db).0 ≡ ok id
        → open_port w.port ≡ (ok u, s)
        → Used w (close_port s')

  opened-Used :
      (id : ℕ) (w : Ws) (s : d.State) (r : Result (Unit {0}) × p.State)
      → (device_row w.db).0 ≡ ok id
      → open_port w.port ≡ r
      → let w' = record w { db = s; port = r.1 } in
        Used w (opened p d h decode open_port close_port cfg timeout turns id (r.0, w')).1.port
  opened-Used id w s (err e, s') row e' = not_opened e s' e'
  opened-Used id w s (ok u, s') row e' =
      let w' = record w { db = s; port = s' } in
      let c = client p d h decode open_port close_port cfg timeout turns in
      let rest =
        begun p d h decode open_port close_port cfg timeout turns id (on_port (begin p c) w') in
      closed_again id u s' rest.1.port row e'

  with_device-Used :
      (w : Ws) (r : Result ℕ × d.State)
      → (device_row w.db).0 ≡ r.0
      → Used w
          (with_device p d h decode open_port close_port cfg timeout turns
            (r.0, record w { db = r.1 })).1.port
  with_device-Used w (err e, s) row = untouched e row
  with_device-Used w (ok id, s) row = opened-Used id w s (open_port w.port) row refl

  abbrev after_ping : Ws → Result (Unit {0}) × d.State → Result ℕ
  after_ping w r = (((λ _. r) >> device d cfg.device_name cfg.address cfg.port cfg.baud) w.db).0

  pinged-Used :
      (w : Ws) (r : Result (Unit {0}) × d.State)
      → d.ping w.db ≡ r
      → Used w
          (pinged p d h decode open_port close_port cfg timeout turns
            (r.0, record w { db = r.1 })).1.port
  pinged-Used w (err e, s) is_r = untouched e (ap (after_ping w) is_r)
  pinged-Used w (ok u, s) is_r =
      with_device-Used w (device d cfg.device_name cfg.address cfg.port cfg.baud s)
        (ap (after_ping w) is_r)

  -- A session touches the serial port only after the database has answered and has given the
  -- device's row; and a port that it has opened it closes, whatever happens in between.
  pub once-Used :
      (w : Ws) → Used w (once p d h decode open_port close_port cfg timeout turns w).1.port
  unfolding once
  once-Used w = pinged-Used w (d.ping w.db) refl
