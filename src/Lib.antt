-- ===== src/Lib.antt =====
-- The firmware of a solar Wi-Fi access point and charging station on the ESP32: its captive portal, its DNS
-- server, its settings and its meters, as functions on their state.
--
-- The program. A client joins the access point. The packet filter (main/lwip_hooks.c) drops its packets to
-- the world until the access list (main/client_acl.c) has its address, and rewrites its HTTP and DNS
-- requests to the portal. The DNS server (main/dns_server.c) answers it with the portal's address until it
-- has a session. The portal (main/http_server.c) starts sessions, charges them to a daily quota of 3600
-- seconds for each MAC address, ends them, keeps the access list and the NAT in step, and queues updates
-- for the hosted database. The battery monitor (main/battery_sensor.c) switches the access point and allows
-- the charging ports by the battery's voltage; the RFID reader (main/rfid_reader.c) powers the ports that are
-- allowed while an authorized card lies on it; the sensors of the ports (main/port_sensors.c) and the energy
-- meter (main/pzem_reader.c) publish what is in use. Wi-Fi events (main/esp32_nat_router.c) call the portal's
-- handlers. Console commands (components/cmd_router) and the administration page store settings in NVS,
-- which the next boot reads. Port mappings are kept in a table, in NVS, and in lwIP's NAPT.
--
-- The files, with the code that each models:
--   Base            shared names, Boolean tests, lists, tables of slots
--   Acl             main/client_acl.c: client_acl_init, _admit, _revoke_by_ip, _revoke_by_mac, _is_admitted
--   Portal/Quota    main/http_server.c: the days, the quota records, load_quota_state, flush_quota_state
--   Portal/Sessions the session slots, the searches, checkpoint_session_usage
--   Portal/State    the statics, refresh_portal_auth_state, revoke_session, NAT, the update queue
--   Portal/Start    start_or_resume_session
--   Portal/Clients  get_client_mac_for_ip, get_remaining_seconds, is_client_session_active
--   Portal/Events   handle_client_connect, _ip_assigned, _disconnect, supabase_heartbeat_task
--   Portal/Pages    the handlers of the portal's URLs, confirm_handler, start_webserver
--   Admin           check_auth, the configuration's handlers, html_escape of main/http_server.c
--   Hook            main/lwip_hooks.c: checksum_adjust, the rewrite of probes, solar_hook_ip4_input
--   Dns             main/dns_server.c: Packet parses and builds, Cache keeps, Server is the task's round
--   Battery         main/battery_sensor.c: the readings, evaluate_transitions, battery_task;
--                   set_user_ap_enabled of main/esp32_nat_router.c
--   Rfid            main/rfid_reader.c: set_power_state, rfid_reader_set_ports_allowed, rfid_task;
--                   Chip is the MFRC522: pcd_init_chip, pcd_transceive, rfid_reader_start
--   Portmap         main/esp32_nat_router.c: add_portmap, del_portmap, get_portmap_tab, apply_portmap_tab;
--                   Command is portmap of components/cmd_router/cmd_router.c
--   Wifi            main/esp32_nat_router.c: wifi_event_handler
--   Config          Text and Store are components/cmd_router/cmd_router.c, Boot what app_main and wifi_init
--                   of main/esp32_nat_router.c make of the settings
--   Pzem            main/pzem_reader.c: Frames are those of Modbus, Meter the task and its state
--   Ports           main/port_sensors.c: Bus sets the sensors up, Reads reads them, Sync is the task
--   Api             main/admin_ports.c: read_body, the JSON fields, api_ports_handler, api_battery_handler,
--                   json_append and the scan
--   Supabase        main/supabase_client.c: perform_request, the sessions' rows
--   Access          the portal and the packet filter together
--   Examples        each theorem applied to a small access point
-- Definitions carry the names of the functions; a loop or a branch of a function has a name of its own.
--
-- State. A record holds the statics of a file, and an operation takes it and returns it. A pointer to a
-- slot of a table is its index, NULL and -1 are `none`. A MAC address is one number of 48 bits, an IPv4
-- address one of 32, a C string the bytes before its NUL; a token or a hash that is NULL reads as the
-- empty one. Seconds cast to uint32_t wrap at 2 ^ 32. A handler runs at one reading of the clock, and as
-- a whole: the record `Env` holds that reading and what the calls of ESP-IDF answer (NVS, NAPT, the queue,
-- the tasks, the stations and their leases, the random token, the hash). `Net` in Dns/Server holds the
-- answers of the upstream servers, `Netif` in Hook the tests of an address. Voltages are in microvolts,
-- with the divider's ratio of 5.661. The macros have the values of the sources:
-- DEV_RESET_QUOTA_ON_BOOT, BATTERY_SENSOR_ENFORCE_THRESHOLDS and RFID_ENFORCE_AUTH are 1; so are
-- PZEM_ENABLED and, as the build may set them, PORT_SENSORS_ENABLED and PORT_SENSORS_SUPABASE_SYNC_ENABLED.
--
-- Loops over tables are recursion on the list. The loops over the bytes of a DNS name take the packet's
-- length and one as fuel: each round moves on by a byte at least. A number is printed with at most 10
-- digits, which is what 32 bits take. The loop of read_body goes over what the connection gives, in order.
-- The loops that wait for the card reader count down from the bounds in the source, 10 and 36. The loop over
-- the slots in handle_client_disconnect and in the heartbeat counts the 20 slots down.
--
-- A page is the decision that it shows. What is sent to the database is a list, the last first. A transfer
-- on the I2C bus is answered by its number, a request to the meter by the bytes that come back. `Nvs` in
-- Config/Store tells which values the flash has taken without a commit; a restart keeps those and what was
-- committed. Currents, voltages and powers are whole numbers of the registers' units.
--
-- Not modelled: logs and main/net_diag.c; HTML (main/pages.h), the images, the reception of the
-- configuration's form; the JSON texts of readings in main/admin_ports.c, whose floats printf rounds;
-- the DHCP option of main/lwip_hooks.c; the creation of sockets, the set-up of the ADC and the
-- reset pin of the MFRC522; the static address and the console of main/esp32_nat_router.c; main/eco_metrics.c; the show
-- command of components/cmd_router; components/cmd_nvs and components/cmd_system, which are ESP-IDF's.
pub mod Base
pub mod Acl
pub mod Hook
pub mod Battery
pub mod Rfid
pub mod Pzem
pub mod Ports
pub mod Config
pub mod Wifi
pub mod Admin
pub mod Supabase
pub mod Api
pub mod Portmap
pub mod Dns
pub mod Access
pub mod Examples
pub mod Portal
