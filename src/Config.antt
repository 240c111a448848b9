-- ===== src/Config.antt =====
-- The router's settings: the console commands of components/cmd_router/cmd_router.c that store them in
-- NVS, and what app_main and wifi_init of main/esp32_nat_router.c make of them at the next boot.
pub mod Text
pub mod Store
pub mod Boot
