-- ===== src/Tests.antt =====
-- Concrete instances of the models' parameters, and runs of the theorems on them.
mod Escrow
mod Tables
mod Bookings
mod Services
mod Codes
mod CheckIns
mod Logins
mod Listings
mod Systems
mod Screens
mod Frontdoor
mod Settings
mod Calls
