-- ===== src/Report.antt =====
-- data.go, data_file.go and the report handling of logic.go: scan reports and compare reports as
-- files. Files are a map from paths to contents; the clock is an argument.
pub mod Store
pub mod Load
pub mod Render
pub mod Compare
